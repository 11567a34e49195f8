-- ===== src/TestSuite/RunLaws.antt =====
-- The results of a test case: how many it sends, and which of them are errors.
use ocm_service_common.Common.{
  ℕ, ◌+◌, zero, suc, ◌≤◌, String, Option, none, some, List, [], ◌∷◌, ◌++◌, ◌≡◌, ◌↔◌, ◌⊎◌, inl, inr,
  Option-cases, refl, arith, eq_iff, length, length-append, All,
}
use ocm_service_common.Common.Result.{Result, ok, err}
use ocm_service_common.TestSuite.Suite.{
  TestCase, TestResult, new_result, string_ptr_from_err, new_string,
}
use ocm_service_common.TestSuite.Running.{
  run_assertions, send_success, run_samples, after_setup, report, run_hook,
}

-- A result is kept as a success in two cases: there was no error, or its message is empty.
new_result-success_iff :
    (name : String) (error : Option String) (latency size : ℕ)
    → ((new_result name error latency size).error ≡ none) ↔ ((error ≡ none) ⊎ (error ≡ some ""))
unfolding new_result string_ptr_from_err new_string
new_result-success_iff name none latency size = (λ h. inl refl, λ h. refl)
new_result-success_iff name (some message) latency size = ground (arith, eq_iff message "")

module _ {W R : Type 0} (latency : W → W → ℕ) (size : R → ℕ) (name : String)
    (test : TestCase W R) where
  -- The result has the name that the test case is stored under.
  abbrev pub Named : TestResult → Type 0
  Named r = r.name ≡ name

  -- The loop leaves an error exactly where it sent one result, which has that error.
  run_assertions-lem :
      (result : Option String → TestResult) (assertions : List (R → Option String)) (response : R)
      → (run_assertions result assertions response ≡ (none, []))
        ⊎ ((e : String) × (run_assertions result assertions response
              ≡ (some e, result (some e) ∷ [])))
  unfolding run_assertions
  run_assertions-lem result [] response = inl refl
  run_assertions-lem result (assertion ∷ assertions) response =
      elim (Option-cases (assertion response)) [
        | inl passed ↦ rw (run_assertions, passed) (run_assertions-lem result assertions response)
        | inr (e, failed) ↦ inr (e, rw (run_assertions, failed) refl)
      ]

  report-lem :
      (w : W) (x : Result String R × W)
      → (length (report latency size name test w x).0 ≡ 1)
        × All Named (report latency size name test w x).0
  unfolding report new_result send_success
  report-lem w (err e, after) = (omega arith, (refl, tt))
  report-lem w (ok response, after) =
      let result = λ (e : Option String). new_result name e (latency w after) (size response) in
      elim (run_assertions-lem result test.response_assertions response) [
        | inl passed ↦ rw (report, passed, All) (omega arith, (refl, tt))
        | inr (e, failed) ↦ rw (report, failed, All) (omega arith, (refl, tt))
      ]

  -- One if the setup succeeded.
  abbrev set_up : Option String × W → ℕ
  set_up (some e, w) = 0
  set_up (none, w) = 1

  -- The samples whose setup succeeds, each run in the world that the sample before it leaves.
  abbrev pub set_ups : ℕ → W → ℕ
  set_ups zero w = 0
  set_ups (suc n) w =
      set_up (run_hook test.setup w)
      + set_ups n (after_setup latency size name test (run_hook test.setup w)).1

  after_setup-lem :
      (x : Option String × W)
      → (length (after_setup latency size name test x).0 ≡ set_up x)
        × (set_up x ≤ 1)
        × All Named (after_setup latency size name test x).0
  unfolding after_setup
  after_setup-lem (some e, w) = (refl, omega arith, tt)
  after_setup-lem (none, w) =
      let (one, named) = report-lem w (test.test_func w) in (one, omega arith, named)

  All-append : (xs ys : List TestResult) → All Named xs → All Named ys → All Named (xs ++ ys)
  All-append [] ys h k = k
  All-append (x ∷ xs) ys h k = (h.0, All-append xs ys h.1 k)

  -- A test case sends exactly one result for each sample whose setup succeeds, so at most as many as
  -- there are samples, each under the name that it is stored under.
  pub run_samples-bound :
      (n : ℕ) (w : W)
      → (length (run_samples latency size name test n w).0 ≡ set_ups n w)
        × (length (run_samples latency size name test n w).0 ≤ n)
        × All Named (run_samples latency size name test n w).0
  unfolding run_samples
  run_samples-bound zero w = (refl, omega arith, tt)
  run_samples-bound (suc n) w =
      let x = run_hook test.setup w in
      let sent = (after_setup latency size name test x).0 in
      let (one, few, named₁) = after_setup-lem x in
      let rest =
        (run_samples latency size name test n (after_setup latency size name test x).1).0 in
      let (same, bound, named) = run_samples-bound n (after_setup latency size name test x).1 in
      let both = length-append sent rest in
      (
        omega (arith, one, same, both),
        omega (arith, bound, one, few, both),
        All-append sent rest named₁ named,
      )
