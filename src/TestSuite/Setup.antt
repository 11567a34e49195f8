-- ===== src/TestSuite/Setup.antt =====
-- pkg/test/framework.go, helpers.go and types.go: the building of a suite, the choice of the
-- credentials, the account of an environment, and the queries of an `ApiTest`. The SDK's connector and
-- the environment of the process are parameters.
use ocm_service_common.Common.{
  ℕ, String, Bool, false, not, ◌&&◌, Option, none, some, List, [], ◌∷◌, ◌++◌, str_eq, ltb,
  if◌then◌else◌, ◌==◌, lookup, length,
}
use ocm_service_common.Common.Result.{Result, ok, err, Run, returns, panics}
use ocm_service_common.Common.Text.{concat}
use ocm_service_common.TestSuite.Suite.{TestMap, TestResult}

abbrev pub Callback : Type 0 → Type 0
Callback W = W → Option String × W

pub record TestSuiteSpec (W R : Type 0) : Type 0 where
  pub tests : List (String × TestMap W R)
  pub before_all_callbacks : List (Callback W)
  pub after_all_callbacks : List (Callback W)
  pub base_url : String
  pub client_id : String
  pub client_secret : String
  pub token : String
  pub default_account_id : String
  pub timeout : ℕ

pub record TestSuite (W R : Type 0) : Type 0 where
  pub tests : List (String × TestMap W R)
  pub before_all_callbacks : List (Callback W)
  pub after_all_callbacks : List (Callback W)
  pub timeout : ℕ
  pub default_account_id : String

-- Five minutes in nanoseconds.
abbrev pub default_timeout : ℕ
default_timeout = 300000000000

module _ {W R : Type 0} where
  -- The suite's callbacks are left at their zero value.
  unfoldable pub build_test_suite :
      (TestSuiteSpec W R → Option String) → TestSuiteSpec W R → Result String (TestSuite W R)
  build_test_suite connect spec = elim (connect spec) [
    | some e ↦
        err (concat ("Unable to run test framework, connection to SDK must be provided: " ∷ e ∷ []))
    | none ↦ ok (record {
      tests = spec.tests;
      before_all_callbacks = [];
      after_all_callbacks = [];
      timeout = if spec.timeout == 0 then default_timeout else spec.timeout;
      default_account_id = spec.default_account_id;
    })
  ]

  unfoldable pub add_before_suite : List (Callback W) → TestSuite W R → TestSuite W R
  add_before_suite callbacks suite = record {
    tests = suite.tests;
    before_all_callbacks = suite.before_all_callbacks ++ callbacks;
    after_all_callbacks = suite.after_all_callbacks;
    timeout = suite.timeout;
    default_account_id = suite.default_account_id;
  }

  unfoldable pub add_after_suite : List (Callback W) → TestSuite W R → TestSuite W R
  add_after_suite callbacks suite = record {
    tests = suite.tests;
    before_all_callbacks = suite.before_all_callbacks;
    after_all_callbacks = suite.after_all_callbacks ++ callbacks;
    timeout = suite.timeout;
    default_account_id = suite.default_account_id;
  }

  -- `GetDefaultAccountID`.
  unfoldable get_default_account_id : TestSuite W R → String
  get_default_account_id suite = suite.default_account_id

-- The credentials of a specification, in the order token, client id, client secret.
pub record Credentials : Type 0 where
  pub token : String
  pub client_id : String
  pub client_secret : String

-- Where nothing is configured, the credentials come from the environment.
unfoldable pub resolve_credentials : (String → String) → Credentials → Credentials
resolve_credentials getenv spec =
    if str_eq spec.token "" && (str_eq spec.client_id "" && str_eq spec.client_secret "")
    then record {
      token = getenv "UHC_TOKEN";
      client_id = getenv "AMS_CLIENT_ID";
      client_secret = getenv "AMS_CLIENT_SECRET";
    }
    else spec

pub data Login : Type 0 where
  by_token : String → Login
  by_client : String → String → Login

-- The log line cuts the last 8 bytes from the token, which panics for a shorter one; `size` is the
-- number of its bytes.
unfoldable pub choose_login :
    (String → ℕ) → (String → String) → Credentials → Run (Result String Login)
unfolding resolve_credentials
choose_login size getenv spec =
    let c = resolve_credentials getenv spec in
    if not (str_eq c.token "")
    then (if ltb (size c.token) 8 then panics else returns (ok (by_token c.token)))
    else (if not (str_eq c.client_id "") && not (str_eq c.client_secret "")
        then returns (ok (by_client c.client_id c.client_secret))
        else returns (err "No token or client/secret found to connect to uhc sdk"))

abbrev stage_url : String
stage_url = "https://api.stage.openshift.com"

abbrev prod_url : String
prod_url = "https://api.openshift.com"

abbrev int_url : String
int_url = "https://api-integration.6943.hive-integration.openshiftapps.com"

unfoldable get_environment : String → String
get_environment url =
    if str_eq url stage_url
    then "stage"
    else (if str_eq url prod_url then "prod" else (if str_eq url int_url then "int" else "dev"))

unfoldable get_account_id : {W R : Type 0} → TestSuiteSpec W R → String
get_account_id spec =
    if str_eq spec.base_url stage_url
    then "1Mpeh6PlQVyIJtC1ebJ6GOTx5Pq"
    else (if str_eq spec.base_url prod_url
        then "1MpGILXFZUlZuLldwGohxGaKxmW"
        else (if str_eq spec.base_url int_url
            then "1Nk17U3WwVgLWUHeGlNGcpcMasI"
            else spec.default_account_id))

-- The results of a runner by test name.
abbrev pub Runner : Type 0
Runner = List (String × List TestResult)

-- `HasResults`.
unfoldable pub has_results : String → List (String × Runner) → Bool
unfolding lookup
has_results name runners = elim (lookup name runners) [
  | none ↦ false
  | some results ↦ ltb 0 (length results)
]

-- The loops of `ContainsError`, which leave at the first error; the order of a map is the one at hand.
unfoldable pub first_error : List TestResult → Option String
first_error [] = none
first_error (r ∷ results) = elim r.error [ none ↦ first_error results | some e ↦ some e ]

unfoldable pub runner_error : Runner → Option String
unfolding first_error
runner_error [] = none
runner_error ((name, results) ∷ tests) = elim (first_error results) [
  | none ↦ runner_error tests
  | some e ↦ some e
]

unfoldable pub contains_error : List (String × Runner) → Option String
unfolding runner_error
contains_error [] = none
contains_error ((pod, tests) ∷ runners) = elim (runner_error tests) [
  | none ↦ contains_error runners
  | some e ↦ some e
]
