-- ===== src/Utils/Tests.antt =====
-- The theorems of the retries at concrete inputs, with a loop in the place of the library.
use ocm_service_common.Common.{
  subst, ℕ, zero, suc, String, Option, none, some, ◌≡◌, ◌≢◌, refl, ◌≤◌, ◌<◌, arith, ap,
}
use ocm_service_common.Common.Result.{returns}
use ocm_service_common.Utils.Retry.{new_retry, run, with_max_retries, Call, exec, Backoff}
use ocm_service_common.Utils.RetryLaws.{exec_succeeds, exec_fails}

-- Once more after an error.
abbrev again : Option String → ℕ → ℕ
again none rest = zero
again (some e) rest = suc rest

-- As long as retries are left.
abbrev count_retries : ℕ → (ℕ → Option String) → ℕ
count_retries zero errors = zero
count_retries (suc n) errors = again (errors 0) (count_retries n (λ k. errors (suc k)))

again-le : (o : Option String) (r n : ℕ) → r ≤ n → again o r ≤ suc n
again-le none r n h = ground arith
again-le (some e) r n h = ground arith

again-lt : (o : Option String) (r m : ℕ) → suc m < again o r → m < r
again-lt none r m h = ground arith
again-lt (some e) r m h = ground arith

count_retries-few : (n : ℕ) (errors : ℕ → Option String) → count_retries n errors ≤ n
count_retries-few zero errors = ground arith
count_retries-few (suc n) errors =
    again-le (errors 0) (count_retries n (λ k. errors (suc k))) n
      (count_retries-few n (λ k. errors (suc k)))

count_retries-failed :
    (n : ℕ) (errors : ℕ → Option String) (m : ℕ) → m < count_retries n errors → errors m ≢ none
count_retries-failed zero errors m h = ground arith
count_retries-failed (suc n) errors zero h = λ e.
    let below : 0 < again none (count_retries n (λ k. errors (suc k))) =
      subst (λ o. 0 < again o (count_retries n (λ k. errors (suc k)))) e h in
    ground arith
count_retries-failed (suc n) errors (suc m) h =
    count_retries-failed n (λ k. errors (suc k)) m
      (again-lt (errors 0) (count_retries n (λ k. errors (suc k))) m h)

again-used :
    (errors : ℕ → Option String) (o : Option String) (rest n : ℕ)
    → errors 0 ≡ o
    → (errors (suc rest) ≢ none → rest ≡ n)
    → errors (again o rest) ≢ none
    → again o rest ≡ suc n
again-used errors none rest n e used h = absurd (h e)
again-used errors (some x) rest n e used h = ap suc (used h)

count_retries-used :
    (n : ℕ) (errors : ℕ → Option String)
    → errors (count_retries n errors) ≢ none
    → count_retries n errors ≡ n
count_retries-used zero errors h = refl
count_retries-used (suc n) errors h =
    again-used errors (errors 0) (count_retries n (λ k. errors (suc k))) n refl
      (count_retries-used n (λ k. errors (suc k))) h

abbrev loop : Backoff
loop = record {
  retries = count_retries;
  retries-few = count_retries-few;
  retries-failed = count_retries-failed;
  retries-used = count_retries-used;
}

-- Two calls that fail, and then the value 7.
abbrev third_time : ℕ → Call ℕ
third_time zero = (0, some "first")
third_time (suc zero) = (0, some "second")
third_time (suc (suc n)) = (7, none)

third_time-failed : (m : ℕ) → m < 2 → (third_time m).1 ≢ none
third_time-failed zero h = cc
third_time-failed (suc zero) h = cc
third_time-failed (suc (suc m)) h = ground arith

exec_succeeds_example :
    exec loop (with_max_retries 5 (run third_time new_retry)) ≡ returns ((7, none), 3)
exec_succeeds_example = exec_succeeds loop third_time 5 2 (ground arith) refl third_time-failed

exec_fails_example :
    exec loop (with_max_retries 1 (run third_time new_retry)) ≡ returns (third_time 1, 2)
exec_fails_example =
    exec_fails loop third_time 1 (λ m few. third_time-failed m (omega (arith, few)))
