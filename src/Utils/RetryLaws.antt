-- ===== src/Utils/RetryLaws.antt =====
-- How often an operation is retried, and what the retries give.
use ocm_service_common.Common.{
  ltb→lt, ltb, Bool-cases, ap, String, ℕ, suc, Option, none, ◌≡◌, ◌≢◌, refl, ◌≤◌, ◌<◌, arith, ◌⊎◌,
  inl, inr,
}
use ocm_service_common.Common.Result.{returns}
use ocm_service_common.Utils.Retry.{new_retry, Call, run, with_max_retries, Backoff, exec}

-- The first call without an error is the last one, if enough retries are given.
retries-first :
    (backoff : Backoff) (errors : ℕ → Option String) (max_retries n : ℕ)
    → n ≤ max_retries
    → errors n ≡ none
    → ((m : ℕ) → m < n → errors m ≢ none)
    → backoff.retries max_retries errors ≡ n
retries-first backoff errors max_retries n few succeeds failed =
    elim (trichotomy (backoff.retries max_retries errors) n) [
      | inl below ↦
          let used = backoff.retries-used max_retries errors (failed _ below) in ground arith
      | inr (inl same) ↦ same
      | inr (inr above) ↦ absurd (backoff.retries-failed max_retries errors n above succeeds)
    ]
  where
    trichotomy : (a b : ℕ) → (a < b) ⊎ ((a ≡ b) ⊎ (b < a))
    trichotomy a b = elim (Bool-cases (ltb a b)) [
      | inl e ↦ inl (ltb→lt a b e)
      | inr e ↦ elim (Bool-cases (ltb b a)) [
        | inl f ↦ inr (inr (ltb→lt b a f))
        | inr f ↦ inr (inl (ground arith))
      ]
    ]

-- If the n-th call of the operation, counted from 0, is the first that gives no error, and n is at most
-- the number of retries, the run makes n + 1 calls and gives the value of the n-th, without an error.
pub exec_succeeds :
    {T : Type 0} (backoff : Backoff) (operation : ℕ → Call T) (max_retries n : ℕ)
    → n ≤ max_retries
    → (operation n).1 ≡ none
    → ((m : ℕ) → m < n → (operation m).1 ≢ none)
    → exec backoff (with_max_retries max_retries (run operation new_retry))
      ≡ returns (((operation n).0, none), suc n)
unfolding exec with_max_retries run
exec_succeeds backoff operation max_retries n few succeeds failed =
    rw (retries-first backoff (λ k. (operation k).1) max_retries n few succeeds failed)
      (ap (λ e. returns (((operation n).0, e), suc n)) succeeds)

-- If every call that the retries allow gives an error, the run makes one more call than there are
-- retries and ends with what the last of them gave, its error included.
pub exec_fails :
    {T : Type 0} (backoff : Backoff) (operation : ℕ → Call T) (max_retries : ℕ)
    → ((m : ℕ) → m ≤ max_retries → (operation m).1 ≢ none)
    → exec backoff (with_max_retries max_retries (run operation new_retry))
      ≡ returns (operation max_retries, suc max_retries)
unfolding exec with_max_retries run
exec_fails backoff operation max_retries failed =
    let errors = λ (k : ℕ). (operation k).1 in
    let few = backoff.retries-few max_retries errors in
    let all_used =
      backoff.retries-used max_retries errors (failed (backoff.retries max_retries errors) few) in
    rw all_used refl
