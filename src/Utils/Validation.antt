-- ===== src/Utils/Validation.antt =====
-- utils/validation_helpers.go: validation rules, and the generic loops over slices. A nil error is
-- `none`; an error is kept as its user message. A pointer is an `Option`.
use ocm_service_common.Common.{
  append_assoc, ◌∙◌, append-nil, sym, subst, Bool-cases, String, Bool, true, false, not, Option,
  none, some, List, [], ◌∷◌, ◌++◌, map, str_eq, if◌then◌else◌, is_some, ◌≡◌, ◌↔◌, inl, inr, refl,
  arith, Any, In,
}
use ocm_service_common.Common.Text.{concat}

-- A rule is run when it is called, and takes nothing.
abbrev pub ValidateRule : Type 0
ValidateRule = Option String

unfoldable validate_nil_field {ℓ} : {A : Type ℓ} → Option A → String → ValidateRule
validate_nil_field field name =
    if not (is_some field) then some (concat ("Missing field '" ∷ name ∷ "'" ∷ [])) else none

unfoldable pub validate_nil_object {ℓ} : {A : Type ℓ} → Option A → String → ValidateRule
validate_nil_object field name =
    if not (is_some field) then some (concat ("'" ∷ name ∷ "' is missing" ∷ [])) else none

unfoldable pub validate_string_field_not_empty : Option String → String → ValidateRule
validate_string_field_not_empty none name = some (concat ("Missing field '" ∷ name ∷ "'" ∷ []))
validate_string_field_not_empty (some param) name =
    if str_eq param "" then some (concat ("Field '" ∷ name ∷ "' is empty" ∷ [])) else none

unfoldable pub validate : List ValidateRule → Option String
validate [] = none
validate (some e ∷ rules) = some e
validate (none ∷ rules) = validate rules

-- `Contains`, over the equality of a comparable type.
unfoldable pub slice_contains {ℓ} : {T : Type ℓ} → (T → T → Bool) → List T → T → Bool
slice_contains eq [] element = false
slice_contains eq (slice_element ∷ slice) element =
    if eq slice_element element then true else slice_contains eq slice element

-- The loop appends to its results.
unfoldable transform_from {ℓ κ} : {T : Type ℓ} {Y : Type κ} → (T → Y) → List Y → List T → List Y
transform_from f results [] = results
transform_from f results (elem ∷ elements) = transform_from f (results ++ f elem ∷ []) elements

unfoldable pub transform {ℓ κ} : {T : Type ℓ} {Y : Type κ} → List T → (T → Y) → List Y
unfolding transform_from
transform elements f = transform_from f [] elements

-- The first rule that fails, with the rules before it passing.
pub data FirstFailure (e : String) : List ValidateRule → Type 0 where
  fails : {rules : List ValidateRule} → FirstFailure e (some e ∷ rules)
  passes : {rules : List ValidateRule} → FirstFailure e rules → FirstFailure e (none ∷ rules)

validate_sound :
    (rules : List ValidateRule) (e : String) → validate rules ≡ some e → FirstFailure e rules
unfolding validate
validate_sound [] e h = cc
validate_sound (some f ∷ rules) e h =
    subst (λ (x : String). FirstFailure e (some x ∷ rules)) (ground arith) FirstFailure.fails
validate_sound (none ∷ rules) e h = FirstFailure.passes (validate_sound rules e h)

validate_complete :
    {e : String} {rules : List ValidateRule} → FirstFailure e rules → validate rules ≡ some e
unfolding validate
validate_complete FirstFailure.fails = refl
validate_complete (FirstFailure.passes f) = validate_complete f

-- Validate returns the error of the first rule that fails, and of no other.
validate-FirstFailure_iff :
    (rules : List ValidateRule) (e : String) → (validate rules ≡ some e) ↔ FirstFailure e rules
validate-FirstFailure_iff rules e = (validate_sound rules e, validate_complete)

module _ {ℓ} {T : Type ℓ} (eq : T → T → Bool)
    (eq_correct : (a b : T) → (eq a b ≡ true) ↔ (a ≡ b)) where
  contains_sound :
      (slice : List T) (element : T) → slice_contains eq slice element ≡ true → In element slice
  unfolding slice_contains
  contains_sound [] element h = cc
  contains_sound (x ∷ slice) element h = elim (Bool-cases (eq x element)) [
    | inl same ↦ Any.here (sym ((eq_correct x element).0 same))
    | inr other ↦ Any.there (contains_sound slice element (ground arith))
  ]

  contains_complete :
      (element : T) {slice : List T} → In element slice → slice_contains eq slice element ≡ true
  unfolding slice_contains
  contains_complete element (Any.here {x} e) = rw ((eq_correct x element).1 (sym e))
  contains_complete element (Any.there {x} i) = elim (Bool-cases (eq x element)) [
    | inl same ↦ rw same
    | inr other ↦ rw other (contains_complete element i)
  ]

  -- Contains decides membership, for any equality that decides paths.
  slice_contains-In_iff :
      (slice : List T) (element : T) → (slice_contains eq slice element ≡ true) ↔ In element slice
  slice_contains-In_iff slice element = (contains_sound slice element, contains_complete element)

transform_from-map {ℓ κ} :
    {T : Type ℓ} {Y : Type κ} (f : T → Y) (results : List Y) (elements : List T)
    → transform_from f results elements ≡ results ++ map f elements
unfolding transform_from
transform_from-map f results [] = sym (append-nil results)
transform_from-map f results (x ∷ elements) =
    transform_from-map f (results ++ f x ∷ []) elements
    ∙ append_assoc results (f x ∷ []) (map f elements)

-- Transform keeps the order and the number of the elements.
transform-map {ℓ κ} :
    {T : Type ℓ} {Y : Type κ} (elements : List T) (f : T → Y)
    → transform elements f ≡ map f elements
unfolding transform
transform-map elements f = transform_from-map f [] elements
