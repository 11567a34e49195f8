-- ===== src/TestSuite/StreamLaws.antt =====
-- The receiving loop of `Run` (pkg/test/framework.go) on the streams that the goroutines of the test
-- cases can produce.
use ocm_service_common.Common.{
  length-append, ◌*◌, ◌≤◌, length, ℕ, ap, ◌∙◌, String, Bool, false, List, [], ◌∷◌, ◌++◌, ◌≡◌, ◌⊎◌,
  inl, inr, refl, arith, str_eq, eq_iff, if◌then◌else◌, lookup, lookup-insert, keep, append_assoc,
  append-nil, sym, Bool-cases,
}
use ocm_service_common.TestSuite.Suite.{TestCase, TestResult, or_empty}
use ocm_service_common.TestSuite.Running.{
  run_samples, pending, Event, received, closed, timed_out, flush, append_result,
}
use ocm_service_common.TestSuite.RunLaws.{run_samples-bound}

-- The results of one name.
abbrev pub results_of : String → List (String × List TestResult) → List TestResult
results_of name results = or_empty (lookup name results)

abbrev pub named : String → TestResult → Bool
named name r = str_eq r.name name

-- The results that a run of the loop takes in.
abbrev taken : List Event → List TestResult
taken [] = []
taken (received r ∷ events) = r ∷ taken events
taken (closed ∷ events) = []
taken (timed_out ∷ events) = []

append_result-of :
    (name : String) (r : TestResult) (results : List (String × List TestResult))
    → results_of name (append_result r results)
      ≡ (if named name r then results_of name results ++ r ∷ [] else results_of name results)
unfolding append_result
append_result-of name r results = ground (
  arith,
  eq_iff r.name name,
  lookup-insert r.name name (or_empty (lookup r.name results) ++ r ∷ []) results,
)

flush-of :
    (name : String) (events : List Event) (results : List (String × List TestResult))
    → results_of name (flush events results)
      ≡ results_of name results ++ keep (named name) (taken events)
unfolding flush
flush-of name [] results = sym (append-nil (results_of name results))
flush-of name (received r ∷ events) results = ground (
  arith,
  flush-of name events (append_result r results),
  append_result-of name r results,
  append_assoc (results_of name results) (r ∷ []) (keep (named name) (taken events)),
)
flush-of name (closed ∷ events) results = sym (append-nil (results_of name results))
flush-of name (timed_out ∷ events) results = sym (append-nil (results_of name results))

abbrev pub flatten : List (List TestResult) → List TestResult
flatten [] = []
flatten (xs ∷ ps) = xs ++ flatten ps

-- One goroutine sends its next result: the results that are still to be sent, before and after.
pub data Sent (r : TestResult) : List (List TestResult) → List (List TestResult) → Type 0 where
  first :
      {rest : List TestResult} {ps : List (List TestResult)} → Sent r ((r ∷ rest) ∷ ps) (rest ∷ ps)
  later :
      {xs : List TestResult} {ps qs : List (List TestResult)}
      → Sent r ps qs
      → Sent r (xs ∷ ps) (xs ∷ qs)

-- The goroutines send in any interleaving, each in its own order, until none has a result left.
pub data Arrives : List (List TestResult) → List TestResult → Type 0 where
  drained : {ps : List (List TestResult)} → flatten ps ≡ [] → Arrives ps []
  sends :
      {r : TestResult} {ps qs : List (List TestResult)} {stream : List TestResult}
      → Sent r ps qs
      → Arrives qs stream
      → Arrives ps (r ∷ stream)

-- At most one of the goroutines has results that pass the test.
abbrev Alone : (TestResult → Bool) → List (List TestResult) → Type 0
Alone p [] = Unit
Alone p (xs ∷ ps) = ((keep p xs ≡ []) × Alone p ps) ⊎ (keep p (flatten ps) ≡ [])

append-nil_left : {A : Type 0} (xs ys : List A) → xs ++ ys ≡ [] → xs ≡ []
append-nil_left [] ys h = refl
append-nil_left (x ∷ xs) ys h = cc

append-nil_right : {A : Type 0} (xs ys : List A) → xs ++ ys ≡ [] → ys ≡ []
append-nil_right [] ys h = h
append-nil_right (x ∷ xs) ys h = cc

keep-append :
    (p : TestResult → Bool) (xs ys : List TestResult) → keep p (xs ++ ys) ≡ keep p xs ++ keep p ys
keep-append p [] ys = refl
keep-append p (x ∷ xs) ys = ground (arith, keep-append p xs ys)

keep-nil :
    (p : TestResult → Bool) {r : TestResult} {ps qs : List (List TestResult)}
    → Sent r ps qs
    → keep p (flatten ps) ≡ []
    → (p r ≡ false) × (keep p (flatten qs) ≡ [])
keep-nil p {r} (Sent.first {rest} {ps}) h = elim (Bool-cases (p r)) [
  | inl e ↦ ground arith
  | inr e ↦ (e, ground arith)
]
keep-nil p {r} (Sent.later {xs} {ps} {qs} s) h =
    let (fails, rest) = keep-nil p s (
      append-nil_right (keep p xs) (keep p (flatten ps))
        (sym (keep-append p xs (flatten ps)) ∙ h)) in
    (
      fails,
      ground (
        arith,
        rest,
        keep-append p xs (flatten ps),
        keep-append p xs (flatten qs),
        append-nil_left (keep p xs) (keep p (flatten ps)),
      ),
    )

keep-flatten-Sent :
    (p : TestResult → Bool) {r : TestResult} {ps qs : List (List TestResult)}
    → Sent r ps qs
    → Alone p ps
    → (keep p (flatten ps) ≡ keep p (r ∷ flatten qs)) × Alone p qs
keep-flatten-Sent p {r} (Sent.first {rest} {ps}) a =
    (refl, elim a [ inl (fails, alone) ↦ inl (ground arith, alone) | inr other ↦ inr other ])
keep-flatten-Sent p {r} (Sent.later {xs} {ps} {qs} s) a = elim a [
  | inl (fails, alone) ↦
      let (same, still) = keep-flatten-Sent p s alone in
      (
        ground (arith, same, fails, keep-append p xs (flatten ps), keep-append p xs (flatten qs)),
        inl (fails, still),
      )
  | inr other ↦
      let (fails, rest) = keep-nil p s other in
      (
        ground (
          arith,
          fails,
          rest,
          other,
          keep-append p xs (flatten ps),
          keep-append p xs (flatten qs),
        ),
        inr rest,
      )
]

Arrives-keep :
    (p : TestResult → Bool) {ps : List (List TestResult)} {stream : List TestResult}
    → Arrives ps stream
    → Alone p ps
    → keep p stream ≡ keep p (flatten ps)
Arrives-keep p (Arrives.drained empty) a = rw empty refl
Arrives-keep p (Arrives.sends {r} {ps} {qs} {stream} s rest) a =
    let (same, alone) = keep-flatten-Sent p s a in ground (arith, same, Arrives-keep p rest alone)

-- The loop receives every result of a run that is not timed out.
abbrev pub run_events : List TestResult → List Event
run_events [] = closed ∷ []
run_events (r ∷ stream) = received r ∷ run_events stream

taken-run_events : (stream : List TestResult) → taken (run_events stream) ≡ stream
taken-run_events [] = refl
taken-run_events (r ∷ stream) = ap (λ rest. r ∷ rest) (taken-run_events stream)

-- However the goroutines of the test cases interleave, a run that is not timed out ends with all the
-- results of each test, in the order in which its goroutine sent them, if no other goroutine sends
-- under its name.
pub flush-Arrives :
    (name : String) {pending : List (List TestResult)} {stream : List TestResult}
    → Arrives pending stream
    → Alone (named name) pending
    → results_of name (flush (run_events stream) []) ≡ keep (named name) (flatten pending)
unfolding lookup
flush-Arrives name {pending} {stream} a alone =
    flush-of name (run_events stream) []
    ∙ (ap (λ rs. keep (named name) rs) (taken-run_events stream)
        ∙ Arrives-keep (named name) a alone)

module _ {W R : Type 0} (latency : W → W → ℕ) (size : R → ℕ) (samples : ℕ)
    (world : String → W) where
  -- A run sends no more results than its channel holds, one for each sample of each test, so that no
  -- goroutine waits for the receiver.
  pending-capacity :
      (tests : List (String × TestCase W R))
      → length (flatten (pending latency size tests samples world)) ≤ length tests * samples
  unfolding pending
  pending-capacity [] = omega arith
  pending-capacity ((name, test) ∷ tests) =
      let sent = (run_samples latency size name test samples (world name)).0 in
      let (same, bound, named) = run_samples-bound latency size name test samples (world name) in
      omega (
        arith,
        bound,
        pending-capacity tests,
        length-append sent (flatten (pending latency size tests samples world)),
      )
