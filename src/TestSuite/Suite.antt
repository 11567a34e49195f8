-- ===== src/TestSuite/Suite.antt =====
-- pkg/test/types.go and framework.go: test cases, results, `Add`, and the flattening of the labels
-- at the start of `Run` and `RunContinuous`. The state that a case's functions share with the
-- program (its `TestState` and the clock) is the type `W`; `R` is the SDK's response. An error is its
-- message, a map is an association list, and `glog.Fatalf` is `none`.
use ocm_service_common.Common.{
  ℕ, String, Option, none, some, List, [], ◌∷◌, str_eq, if◌then◌else◌, lookup, insert, is_some,
}
use ocm_service_common.Common.Result.{Result}

pub record TestCase (W R : Type 0) : Type 0 where
  pub name : String
  pub labels : List String
  pub test_func : W → Result String R × W
  pub response_assertions : List (R → Option String)
  pub setup : Option (W → Option String × W)
  pub teardown : Option (W → Option String × W)

-- `Result` of types.go.
pub record TestResult : Type 0 where
  pub name : String
  pub error : Option String
  pub latency : ℕ
  pub size : ℕ

unfoldable pub new_string : String → Option String
new_string str = if str_eq str "" then none else some str

unfoldable pub string_ptr_from_err : Option String → Option String
unfolding new_string
string_ptr_from_err none = none
string_ptr_from_err (some message) = new_string message

unfoldable pub new_result : String → Option String → ℕ → ℕ → TestResult
unfolding string_ptr_from_err
new_result name error latency size = record {
  name = name;
  error = string_ptr_from_err error;
  latency = latency;
  size = size;
}

abbrev pub TestMap : Type 0 → Type 0 → Type 0
TestMap W R = List (String × TestCase W R)

-- `ERRORTEST` of helpers.go.
abbrev pub error_test : String
error_test = "error"

-- A Go map reads as empty at a missing key.
abbrev pub or_empty {ℓ} : {A : Type ℓ} → Option (List A) → List A
or_empty none = []
or_empty (some xs) = xs

module _ {W R : Type 0} where
  -- The bucket of a label.
  unfoldable pub bucket : String → List (String × TestMap W R) → TestMap W R
  unfolding lookup
  bucket label tests = or_empty (lookup label tests)

  -- One turn of the loop over the labels of a case.
  unfoldable pub add_label :
      String → TestCase W R → List (String × TestMap W R) → Option (List (String × TestMap W R))
  unfolding bucket insert
  add_label label test_case tests =
      if is_some (lookup test_case.name (bucket label tests))
      then none
      else some (insert label (insert test_case.name test_case (bucket label tests)) tests)

  unfoldable pub add_labels :
      List String
      → TestCase W R
      → List (String × TestMap W R)
      → Option (List (String × TestMap W R))
  unfolding add_label
  add_labels [] test_case tests = some tests
  add_labels (label ∷ labels) test_case tests = elim (add_label label test_case tests) [
    | none ↦ none
    | some added ↦ add_labels labels test_case added
  ]

  -- `Add`; the case of the name `error_test` stays out of the bucket "all".
  unfoldable pub add :
      TestCase W R → List (String × TestMap W R) → Option (List (String × TestMap W R))
  unfolding add_label add_labels
  add test_case tests =
      if is_some (lookup test_case.name (bucket "all" tests))
      then none
      else add_labels test_case.labels test_case (
          insert "all"
            (if str_eq test_case.name error_test
              then bucket "all" tests
              else insert test_case.name test_case (bucket "all" tests))
            tests)

  unfoldable add_test_cases :
      List (TestCase W R) → List (String × TestMap W R) → Option (List (String × TestMap W R))
  unfolding add
  add_test_cases [] tests = some tests
  add_test_cases (test_case ∷ cases) tests = elim (add test_case tests) [
    | none ↦ none
    | some added ↦ add_test_cases cases added
  ]

  -- The loop over one bucket: a name that is found already is left alone.
  unfoldable pub select_bucket : TestMap W R → TestMap W R → TestMap W R
  select_bucket [] cases = cases
  select_bucket ((name, test_case) ∷ tests) cases =
      select_bucket tests
        (if is_some (lookup name cases) then cases else insert name test_case cases)

  -- The loop over the labels of the configuration.
  unfoldable pub select : List String → List (String × TestMap W R) → TestMap W R → TestMap W R
  unfolding select_bucket bucket
  select [] tests cases = cases
  select (label ∷ labels) tests cases =
      select labels tests (select_bucket (bucket label tests) cases)
