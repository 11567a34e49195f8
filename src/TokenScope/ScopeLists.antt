-- ===== src/TokenScope/ScopeLists.antt =====
-- ValidateScopes: the lists of missing and of denied scopes, and the decision on them.
use ocm_service_common.Common.{
  String, if◌then◌else◌, true, not, Option, none, some, List, [], ◌∷◌, ◌≡◌, refl, ◌↔◌, inl, inr,
  arith, All, In, has, has→In, In→has, keep, Bool-cases,
}
use ocm_service_common.TokenScope.State.{
  Error, missing_required_scopes, unauthorized_scopes, Middleware,
}
use ocm_service_common.TokenScope.Validation.{missing_scopes, denied_scopes, is_set, check_scopes}

-- The decision on the two lists alone: missing scopes come first.
abbrev pub verdict : List String → List String → Option Error
verdict missing denied =
    if is_set missing
    then some (missing_required_scopes missing)
    else if is_set denied
    then some (unauthorized_scopes denied)
    else none

module _ (parts : List String) where
  pub missing_scopes-keep :
      (required : List String)
      → missing_scopes required parts ≡ keep (λ r. not (has r parts)) required
  unfolding missing_scopes
  missing_scopes-keep [] = refl
  missing_scopes-keep (r ∷ rs) = ground (arith, missing_scopes-keep rs)

  pub denied_scopes-keep :
      (deny : List String) → denied_scopes deny parts ≡ keep (λ d. has d parts) deny
  unfolding denied_scopes
  denied_scopes-keep [] = refl
  denied_scopes-keep (d ∷ ds) = ground (arith, denied_scopes-keep ds)

  missing_none→All :
      (required : List String) → missing_scopes required parts ≡ [] → All (λ r. In r parts) required
  unfolding missing_scopes
  missing_none→All [] h = tt
  missing_none→All (r ∷ rs) h = elim (Bool-cases (has r parts)) [
    | inl e ↦ (has→In r parts e, missing_none→All rs (ground arith))
    | inr e ↦ absurd (ground arith)
  ]

  All→missing_none :
      (required : List String) → All (λ r. In r parts) required → missing_scopes required parts ≡ []
  unfolding missing_scopes
  All→missing_none [] h = refl
  All→missing_none (r ∷ rs) h = ground (arith, In→has r h.0, All→missing_none rs h.1)

  denied_none→All :
      (deny : List String) → denied_scopes deny parts ≡ [] → All (λ d. ¬ (In d parts)) deny
  unfolding denied_scopes
  denied_none→All [] h = tt
  denied_none→All (d ∷ ds) h = elim (Bool-cases (has d parts)) [
    | inl e ↦ absurd (ground arith)
    | inr e ↦ ((λ i. cc (e, In→has d i)), denied_none→All ds (ground arith))
  ]

  All→denied_none :
      (deny : List String) → All (λ d. ¬ (In d parts)) deny → denied_scopes deny parts ≡ []
  unfolding denied_scopes
  All→denied_none [] h = refl
  All→denied_none (d ∷ ds) h = elim (Bool-cases (has d parts)) [
    | inl e ↦ absurd (h.0 (has→In d parts e))
    | inr e ↦ ground (arith, All→denied_none ds h.1)
  ]

  missing_is_set :
      (required : List String)
      → is_set (missing_scopes required parts) ≡ true
      → is_set required ≡ true
  unfolding missing_scopes
  missing_is_set [] h = h
  missing_is_set (r ∷ rs) h = ground arith

  denied_is_set :
      (deny : List String) → is_set (denied_scopes deny parts) ≡ true → is_set deny ≡ true
  unfolding denied_scopes
  denied_is_set [] h = h
  denied_is_set (d ∷ ds) h = ground arith

  -- The tests on the lengths of the configured lists change nothing.
  pub check_scopes_lem :
      (t : Middleware)
      → check_scopes t parts
        ≡ verdict (missing_scopes t.required_scopes parts) (denied_scopes t.deny_scopes parts)
  unfolding check_scopes
  check_scopes_lem t = ground (arith, missing_is_set t.required_scopes, denied_is_set t.deny_scopes)

verdict-eq-none :
    (missing denied : List String) → verdict missing denied ≡ none → (missing ≡ []) × (denied ≡ [])
verdict-eq-none [] [] h = (refl, refl)
verdict-eq-none [] (d ∷ ds) h = ground arith
verdict-eq-none (m ∷ ms) denied h = ground arith

pub unset : (xs : List String) → not (is_set xs) ≡ true → xs ≡ []
unset [] h = refl
unset (x ∷ xs) h = ground arith

-- The scopes of a token pass exactly where they hold every required scope and no denied one.
pub check_scopes-eq-none_iff :
    (t : Middleware) (parts : List String)
    → (check_scopes t parts ≡ none)
      ↔ (All (λ r. In r parts) t.required_scopes × All (λ d. ¬ (In d parts)) t.deny_scopes)
check_scopes-eq-none_iff t parts = (
  λ h.
      let (no_missing, no_denied) =
        verdict-eq-none (missing_scopes t.required_scopes parts) (denied_scopes t.deny_scopes parts)
          (rw check_scopes_lem at h) in
      (
        missing_none→All parts t.required_scopes no_missing,
        denied_none→All parts t.deny_scopes no_denied,
      ),
  λ h. rw (
    check_scopes_lem,
    All→missing_none parts t.required_scopes h.0,
    All→denied_none parts t.deny_scopes h.1,
  ),
)
