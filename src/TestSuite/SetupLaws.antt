-- ===== src/TestSuite/SetupLaws.antt =====
-- What a suite keeps of its specification, and which tests contain an error.
use ocm_service_common.Common.{
  String, Option, none, List, [], ◌∷◌, ◌≡◌, ◌↔◌, refl, arith, All, Option-cases, inl, inr,
}
use ocm_service_common.Common.Result.{ok}
use ocm_service_common.TestSuite.Suite.{TestResult}
use ocm_service_common.TestSuite.Setup.{
  TestSuiteSpec, TestSuite, build_test_suite, Runner, first_error, runner_error, contains_error,
}

-- A suite that is built keeps the tests of its specification and none of its callbacks.
build_test_suite-callbacks :
    {W R : Type 0} (connect : TestSuiteSpec W R → Option String) (spec : TestSuiteSpec W R)
    {suite : TestSuite W R}
    → build_test_suite connect spec ≡ ok suite
    → (suite.tests ≡ spec.tests)
      × (suite.before_all_callbacks ≡ [])
      × (suite.after_all_callbacks ≡ [])
unfolding build_test_suite
build_test_suite-callbacks connect spec {suite} h = elim (Option-cases (connect spec)) [
  | inr (e, failed) ↦ ground (arith, failed)
  | inl fine ↦ (ground (arith, fine), ground (arith, fine), ground (arith, fine))
]

abbrev pub Succeeded : TestResult → Type 0
Succeeded r = r.error ≡ none

first_error-Succeeded :
    (results : List TestResult) → (first_error results ≡ none) ↔ All Succeeded results
unfolding first_error
first_error-Succeeded [] = (λ h. tt, λ h. refl)
first_error-Succeeded (r ∷ results) = ground (arith, first_error-Succeeded results)

abbrev pub AllSucceeded : String × List TestResult → Type 0
AllSucceeded test = All Succeeded test.1

runner_error-Succeeded : (tests : Runner) → (runner_error tests ≡ none) ↔ All AllSucceeded tests
unfolding runner_error
runner_error-Succeeded [] = (λ h. tt, λ h. refl)
runner_error-Succeeded ((name, results) ∷ tests) =
    ground (arith, first_error-Succeeded results, runner_error-Succeeded tests)

-- ContainsError reports no error exactly where every result of every test of every runner succeeded.
contains_error-Succeeded_iff :
    (runners : List (String × Runner))
    → (contains_error runners ≡ none) ↔ All (λ runner. All AllSucceeded runner.1) runners
unfolding contains_error
contains_error-Succeeded_iff [] = (λ h. tt, λ h. refl)
contains_error-Succeeded_iff ((pod, tests) ∷ runners) =
    ground (arith, runner_error-Succeeded tests, contains_error-Succeeded_iff runners)
