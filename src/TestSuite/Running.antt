-- ===== src/TestSuite/Running.antt =====
-- pkg/test/framework.go: the goroutine of a test case in `Run` (with one sample, that of
-- `RunContinuous` in continuous_framework.go), and the loop that receives the results. `latency`
-- measures two states of the world, and `size` a response.
use ocm_service_common.Common.{
  ℕ, zero, suc, String, Option, none, some, List, [], ◌∷◌, ◌++◌, insert, lookup,
}
use ocm_service_common.Common.Result.{Result, ok, err}
use ocm_service_common.TestSuite.Suite.{TestCase, TestResult, new_result, or_empty}

-- A hook that is nil does nothing.
unfoldable pub run_hook : {W : Type 0} → Option (W → Option String × W) → W → Option String × W
run_hook none w = (none, w)
run_hook (some hook) w = hook w

-- The loop over the assertions: the error that is left after it, and what it sends. It leaves at the
-- first assertion that fails.
unfoldable pub run_assertions :
    {R : Type 0}
    → (Option String → TestResult)
    → List (R → Option String)
    → R
    → Option String × List TestResult
run_assertions result [] response = (none, [])
run_assertions result (assertion ∷ assertions) response = elim (assertion response) [
  | none ↦ run_assertions result assertions response
  | some e ↦ (some e, result (some e) ∷ [])
]

-- The result of a success, if no error is left.
unfoldable pub send_success : (Option String → TestResult) → Option String → List TestResult
send_success result none = result none ∷ []
send_success result (some e) = []

module _ {W R : Type 0} (latency : W → W → ℕ) (size : R → ℕ) where
  -- What follows the call of the test function, for the name that the test case is stored under.
  unfoldable pub report : String → TestCase W R → W → Result String R × W → List TestResult × W
  unfolding new_result run_assertions send_success run_hook
  report name test before (err e, after) =
      (new_result name (some e) (latency before after) 0 ∷ [], after)
  report name test before (ok response, after) =
      let result =
        λ (e : Option String). new_result name e (latency before after) (size response) in
      let (left, sent) = run_assertions result test.response_assertions response in
      (sent ++ send_success result left, (run_hook test.teardown after).1)

  -- What follows the setup.
  unfoldable pub after_setup : String → TestCase W R → Option String × W → List TestResult × W
  unfolding report
  after_setup name test (some e, w) = ([], w)
  after_setup name test (none, w) = report name test w (test.test_func w)

  unfoldable pub run_samples : String → TestCase W R → ℕ → W → List TestResult × W
  unfolding after_setup
  run_samples name test zero w = ([], w)
  run_samples name test (suc n) w =
      let (sent, w₁) = after_setup name test (run_hook test.setup w) in
      let (rest, w₂) = run_samples name test n w₁ in (sent ++ rest, w₂)

-- What the receiving loop selects on.
pub data Event : Type 0 where
  received : TestResult → Event
  closed timed_out : Event

unfoldable pub append_result :
    TestResult → List (String × List TestResult) → List (String × List TestResult)
unfolding insert
append_result r results = insert r.name (or_empty (lookup r.name results) ++ r ∷ []) results

unfoldable pub flush :
    List Event → List (String × List TestResult) → List (String × List TestResult)
unfolding append_result
flush [] results = results
flush (received r ∷ events) results = flush events (append_result r results)
flush (closed ∷ events) results = results
flush (timed_out ∷ events) results = results

module _ {W R : Type 0} (latency : W → W → ℕ) (size : R → ℕ) where
  -- What the goroutines of a run send, each from the world that it starts in.
  unfoldable pub pending : List (String × TestCase W R) → ℕ → (String → W) → List (List TestResult)
  unfolding run_samples
  pending [] samples world = []
  pending ((name, test) ∷ tests) samples world =
      (run_samples latency size name test samples (world name)).0 ∷ pending tests samples world

  -- The goroutine of a test case in `RunContinuous`, which runs its body once.
  unfoldable pub run_continuous : String → TestCase W R → W → List TestResult × W
  unfolding after_setup run_hook
  run_continuous name test w = after_setup latency size name test (run_hook test.setup w)
