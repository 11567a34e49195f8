-- ===== src/TestSuite/SuiteLaws.antt =====
-- The buckets of a suite: what `Add` leaves in them, and what a run selects from them.
use ocm_service_common.Common.{
  ◌≢◌, String, false, Option, none, some, List, [], ◌∷◌, ◌≡◌, arith, str_eq, eq_iff, if◌then◌else◌,
  insert, lookup, lookup-insert, is_some, In, In-cases, In-nil, inl, inr, Option-cases,
}
use ocm_service_common.TestSuite.Suite.{
  TestCase, TestMap, bucket, add_label, add_labels, add, select_bucket, select, error_test,
}

module _ {W R : Type 0} where
  -- The test case of a name in the bucket of a label.
  unfoldable pub find : String → String → List (String × TestMap W R) → Option (TestCase W R)
  unfolding bucket lookup
  find label name tests = lookup name (bucket label tests)

  bucket-insert :
      (label other : String) (b : TestMap W R) (tests : List (String × TestMap W R))
      → bucket other (insert label b tests) ≡ (if str_eq label other then b else bucket other tests)
  unfolding bucket
  bucket-insert label other b tests = ground (arith, lookup-insert label other b tests)

  find-add_label :
      (label other name : String) (test_case : TestCase W R) (tests : List (String × TestMap W R))
      {added : List (String × TestMap W R)}
      → add_label label test_case tests ≡ some added
      → find other name added ≡ (
          if str_eq label other
          then (if str_eq test_case.name name then some test_case else find other name tests)
          else find other name tests)
  unfolding add_label find
  find-add_label label other name test_case tests h = ground (
    arith,
    eq_iff label other,
    bucket-insert label other (insert test_case.name test_case (bucket label tests)) tests,
    lookup-insert test_case.name name test_case (bucket label tests),
  )

  add_label-keeps :
      (label other name : String) (test_case : TestCase W R) (tests : List (String × TestMap W R))
      {added : List (String × TestMap W R)} {c : TestCase W R}
      → add_label label test_case tests ≡ some added
      → find other name tests ≡ some c
      → find other name added ≡ some c
  unfolding add_label find
  add_label-keeps label other name test_case tests h found = ground (
    arith,
    eq_iff label other,
    eq_iff test_case.name name,
    find-add_label label other name test_case tests h,
  )

  add_labels-keeps :
      (labels : List String) (other name : String) (test_case : TestCase W R)
      (tests : List (String × TestMap W R)) {added : List (String × TestMap W R)} {c : TestCase W R}
      → add_labels labels test_case tests ≡ some added
      → find other name tests ≡ some c
      → find other name added ≡ some c
  unfolding add_labels
  add_labels-keeps [] other name test_case tests h found = ground arith
  add_labels-keeps (label ∷ labels) other name test_case tests h found =
      elim (Option-cases (add_label label test_case tests)) [
        | inl e ↦ ground arith
        | inr (next, e) ↦
            add_labels-keeps labels other name test_case next (ground arith)
              (add_label-keeps label other name test_case tests e found)
      ]

  add_labels-finds :
      (labels : List String) {label : String} (test_case : TestCase W R)
      (tests : List (String × TestMap W R)) {added : List (String × TestMap W R)}
      → add_labels labels test_case tests ≡ some added
      → In label labels
      → find label test_case.name added ≡ some test_case
  unfolding add_labels
  add_labels-finds [] test_case tests h i = absurd (In-nil i)
  add_labels-finds (l ∷ labels) {label} test_case tests h i =
      elim (Option-cases (add_label l test_case tests)) [
        | inl e ↦ ground arith
        | inr (next, e) ↦ elim (In-cases i) [
          | inl same ↦ add_labels-keeps labels label test_case.name test_case next (ground arith) (
              ground (
                arith,
                same,
                eq_iff l label,
                eq_iff test_case.name test_case.name,
                find-add_label l label test_case.name test_case tests e,
              ))
          | inr j ↦ add_labels-finds labels test_case next (ground arith) j
        ]
      ]

  -- The buckets before the loop over the labels.
  abbrev with_all : TestCase W R → List (String × TestMap W R) → List (String × TestMap W R)
  with_all test_case tests =
      insert "all"
        (if str_eq test_case.name error_test
          then bucket "all" tests
          else insert test_case.name test_case (bucket "all" tests))
        tests

  all-finds :
      (test_case : TestCase W R) (tests : List (String × TestMap W R))
      → test_case.name ≢ error_test
      → find "all" test_case.name (with_all test_case tests) ≡ some test_case
  unfolding find
  all-finds test_case tests other = ground (
    arith,
    eq_iff test_case.name error_test,
    eq_iff test_case.name test_case.name,
    bucket-insert "all" "all" (insert test_case.name test_case (bucket "all" tests)) tests,
    lookup-insert test_case.name test_case.name test_case (bucket "all" tests),
  )

  all-keeps :
      (test_case : TestCase W R) (tests : List (String × TestMap W R)) (label name : String)
      {c : TestCase W R}
      → is_some (lookup test_case.name (bucket "all" tests)) ≡ false
      → find label name tests ≡ some c
      → find label name (with_all test_case tests) ≡ some c
  unfolding find
  all-keeps test_case tests label name absent found = ground (
    arith,
    eq_iff "all" label,
    eq_iff test_case.name name,
    bucket-insert "all" label (bucket "all" tests) tests,
    bucket-insert "all" label (insert test_case.name test_case (bucket "all" tests)) tests,
    lookup-insert test_case.name name test_case (bucket "all" tests),
  )

  -- After Add, the case is in the bucket of each of its labels, it is in "all" unless it is the error
  -- test, and every case that was in a bucket is still there.
  pub add-finds :
      (test_case : TestCase W R) (tests : List (String × TestMap W R))
      {added : List (String × TestMap W R)}
      → add test_case tests ≡ some added
      → ((label : String)
          → In label test_case.labels
          → find label test_case.name added ≡ some test_case)
        × (test_case.name ≢ error_test → find "all" test_case.name added ≡ some test_case)
        × ((label name : String) (c : TestCase W R)
            → find label name tests ≡ some c
            → find label name added ≡ some c)
  unfolding add
  add-finds test_case tests h = (
    λ label i.
        add_labels-finds test_case.labels test_case (with_all test_case tests) (ground arith) i,
    λ other.
        add_labels-keeps test_case.labels "all" test_case.name test_case (with_all test_case tests)
          (ground arith) (all-finds test_case tests other),
    λ label name c found.
        add_labels-keeps test_case.labels label name test_case (with_all test_case tests)
          (ground arith) (all-keeps test_case tests label name (ground arith) found),
  )

  lookup-select_bucket :
      (name : String) (tests cases : TestMap W R)
      → lookup name (select_bucket tests cases)
        ≡ elim (lookup name cases) [ none ↦ lookup name tests | some c ↦ some c ]
  unfolding select_bucket lookup
  lookup-select_bucket name [] cases = ground arith
  lookup-select_bucket name ((n, c) ∷ tests) cases = ground (
    arith,
    eq_iff n name,
    lookup-insert n name c cases,
    lookup-select_bucket name tests (if is_some (lookup n cases) then cases else insert n c cases),
  )

  -- The case of the first label that has the name.
  abbrev pub first_with : String → List String → List (String × TestMap W R) → Option (TestCase W R)
  first_with name [] tests = none
  first_with name (label ∷ labels) tests = elim (find label name tests) [
    | none ↦ first_with name labels tests
    | some c ↦ some c
  ]

  lookup-select :
      (name : String) (labels : List String) (tests : List (String × TestMap W R))
      (cases : TestMap W R)
      → lookup name (select labels tests cases)
        ≡ elim (lookup name cases) [ none ↦ first_with name labels tests | some c ↦ some c ]
  unfolding select find
  lookup-select name [] tests cases = ground arith
  lookup-select name (label ∷ labels) tests cases = ground (
    arith,
    lookup-select name labels tests (select_bucket (bucket label tests) cases),
    lookup-select_bucket name (bucket label tests) cases,
  )

  -- A run has one case for each name that stands under a label of its configuration, the one of the
  -- first such label.
  select-first :
      (name : String) (labels : List String) (tests : List (String × TestMap W R))
      → lookup name (select labels tests []) ≡ first_with name labels tests
  unfolding lookup
  select-first name labels tests = lookup-select name labels tests []
