-- ===== src/TestSuite/Tests.antt =====
-- The theorems of the test framework at a suite of two test cases.
use ocm_service_common.Common.{
  ℕ, suc, ◌≤◌, String, Option, none, some, List, [], ◌∷◌, ◌≡◌, ◌≢◌, inr, refl, length, keep, All,
  lookup, insert, In,
}
use ocm_service_common.Common.Result.{ok, err}
use ocm_service_common.TestSuite.Setup.{
  default_timeout, TestSuiteSpec, TestSuite, build_test_suite, Runner,
}
use ocm_service_common.TestSuite.Suite.{
  TestCase, TestMap, TestResult, add, add_label, add_labels, bucket, error_test,
}
use ocm_service_common.TestSuite.Running.{run_hook, run_samples, flush}
use ocm_service_common.TestSuite.SuiteLaws.{find, add-finds}
use ocm_service_common.TestSuite.RunLaws.{run_samples-bound, Named}
use ocm_service_common.TestSuite.StreamLaws.{
  Sent, Arrives, flatten, named, results_of, run_events, flush-Arrives,
}

-- A test whose world counts the calls, and which answers with the count.
abbrev ping : TestCase ℕ ℕ
ping = record {
  name = "ping";
  labels = "smoke" ∷ [];
  test_func = λ w. (ok w, suc w);
  response_assertions = [];
  setup = none;
  teardown = none;
}

-- The first of its assertions passes and the other two fail.
abbrev checked_ping : TestCase ℕ ℕ
checked_ping = record ping {
  response_assertions =
      (λ response. none) ∷ (λ response. some "slow") ∷ (λ response. some "big") ∷ [];
}

abbrev list_clusters : TestCase ℕ ℕ
list_clusters = record {
  name = "list";
  labels = [];
  test_func = λ w. (err "503", w);
  response_assertions = [];
  setup = none;
  teardown = none;
}

abbrev before : List (String × TestMap ℕ ℕ)
before = ("all", ("list", list_clusters) ∷ []) ∷ []

abbrev after : List (String × TestMap ℕ ℕ)
after = ("all", ("list", list_clusters) ∷ ("ping", ping) ∷ []) ∷ ("smoke", ("ping", ping) ∷ []) ∷ []

added : add ping before ≡ some after
unfolding add add_label add_labels bucket lookup insert
added = refl

add-finds_example :
    ((label : String) → In label ("smoke" ∷ []) → find label "ping" after ≡ some ping)
    × ("ping" ≢ error_test → find "all" "ping" after ≡ some ping)
    × ((label name : String) (c : TestCase ℕ ℕ)
        → find label name before ≡ some c
        → find label name after ≡ some c)
add-finds_example = add-finds ping before added

abbrev empty_message : Option String
empty_message = some ""

abbrev elapsed : ℕ → ℕ → ℕ
elapsed w v = 0

abbrev size_of : ℕ → ℕ
size_of r = r

-- The test case is stored under another name than its own.
run_samples-bound_example :
    (length (run_samples elapsed size_of "ping/v2" checked_ping 3 0).0 ≡ 3)
    × (length (run_samples elapsed size_of "ping/v2" checked_ping 3 0).0 ≤ 3)
    × All
        (Named elapsed size_of "ping/v2" checked_ping)
        (run_samples elapsed size_of "ping/v2" checked_ping 3 0).0
unfolding run_hook
run_samples-bound_example = run_samples-bound elapsed size_of "ping/v2" checked_ping 3 0

abbrev one : TestResult
one = record { name = "ping"; error = none; latency = 1; size = 1 }

abbrev two : TestResult
two = record { name = "list"; error = some "503"; latency = 2; size = 0 }

abbrev three : TestResult
three = record { name = "ping"; error = none; latency = 3; size = 1 }

abbrev waiting : List (List TestResult)
waiting = (one ∷ three ∷ []) ∷ (two ∷ []) ∷ []

interleaved : Arrives waiting (one ∷ two ∷ three ∷ [])
interleaved =
    Arrives.sends Sent.first
      (Arrives.sends (Sent.later Sent.first) (Arrives.sends Sent.first (Arrives.drained refl)))

flush-Arrives_example :
    results_of "ping" (flush (run_events (one ∷ two ∷ three ∷ [])) [])
    ≡ keep (named "ping") (flatten waiting)
flush-Arrives_example = flush-Arrives "ping" interleaved (inr refl)

abbrev start : String → ℕ
start name = 0

abbrev cases : List (String × TestCase ℕ ℕ)
cases = ("ping", ping) ∷ ("list", list_clusters) ∷ []

abbrev spec : TestSuiteSpec ℕ ℕ
spec = record {
  tests = before;
  before_all_callbacks = (λ w. (none, suc w)) ∷ [];
  after_all_callbacks = [];
  base_url = "";
  client_id = "";
  client_secret = "";
  token = "";
  default_account_id = "a1";
  timeout = 0;
}

abbrev connected : TestSuiteSpec ℕ ℕ → Option String
connected s = none

abbrev suite : TestSuite ℕ ℕ
suite = record {
  tests = before;
  before_all_callbacks = [];
  after_all_callbacks = [];
  timeout = default_timeout;
  default_account_id = "a1";
}

built : build_test_suite connected spec ≡ ok suite
unfolding build_test_suite
built = refl

abbrev runners : List (String × Runner)
runners = ("pod", ("ping", one ∷ []) ∷ ("list", two ∷ []) ∷ []) ∷ []
