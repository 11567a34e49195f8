-- ===== src/TokenScope/PollingLaws.antt =====
-- The polling of AMS: what one round changes, what the loop has established after any number of
-- rounds, and what that means for a request.
use ocm_service_common.Common.{
  ap, ◌∙◌, insert, has, lookup, String, Bool, true, ◌||◌, Option, none, some, List, [], ◌∷◌, ◌≡◌,
  refl, inl, inr, arith, eq_iff, lookup-insert,
}
use ocm_service_common.Common.Result.{Result-cases, ◌>>=◌, err, ok, Result}
use ocm_service_common.TokenScope.Polling.{
  reviewed, check, check_enforce_offline_org_restrictions, populate_offline_restricted_orgs,
  organization_search, label_search, mark_restricted, Ams,
}
use ocm_service_common.TokenScope.State.{
  is_offline_org_restrictions_enabled_safe, flag_enforce_offline_token_restrictions,
  is_org_restricted_safe, Middleware, Error, or_false,
}

abbrev answered {ℓ} : {A : Type ℓ} → Result Error A → Option A
answered (ok a) = some a
answered (err e) = none

-- What a round learns of the restricted organizations: nothing if a request failed.
unfoldable pub told_organizations : Ams → Option (List String)
told_organizations ams = elim (ams.search_labels label_search) [
  | err e ↦ none
  | ok none ↦ some []
  | ok (some []) ↦ some []
  | ok (some organizations) ↦
      answered (ams.search_organizations (organization_search organizations))
]

-- What a round learns of the feature flag.
unfoldable pub told_flag : Ams → Option Bool
told_flag ams = answered (do
  request ← ams.build_feature_request flag_enforce_offline_token_restrictions
  response ← ams.review_feature request
  reviewed flag_enforce_offline_token_restrictions response)

mark_restricted_lem :
    (ids : List String) (org : String) (m : List (String × Bool))
    → or_false (lookup org (mark_restricted ids m)) ≡ (has org ids || or_false (lookup org m))
unfolding mark_restricted
mark_restricted_lem [] org m = refl
mark_restricted_lem (i ∷ ids) org m = ground (
  arith,
  mark_restricted_lem ids org (insert i true m),
  lookup-insert i org true m,
  eq_iff i org,
  eq_iff org i,
)

-- What is known afterwards: the answer, or what was known before if there was none.
abbrev pub or_before {ℓ} : {A : Type ℓ} → Option A → A → A
or_before none old = old
or_before (some new) old = new

abbrev pub listed : Option (List String) → String → Option Bool
listed none org = none
listed (some ids) org = some (has org ids)

module _ (ams : Ams) (t : Middleware) (connected : t.has_connection ≡ true) where
  populate_restricted :
      (org : String)
      → is_org_restricted_safe (populate_offline_restricted_orgs ams t).1 org
        ≡ or_before (listed (told_organizations ams) org) (is_org_restricted_safe t org)
  unfolding populate_offline_restricted_orgs told_organizations is_org_restricted_safe
  populate_restricted org = elim (Result-cases (ams.search_labels label_search)) [
    | inr (e, failed) ↦ ground arith
    | inl (none, found) ↦ ground arith
    | inl (some [], found) ↦ ground arith
    | inl (some (o ∷ os), found) ↦
        elim (Result-cases (ams.search_organizations (organization_search (o ∷ os)))) [
          | inr (e, failed) ↦ ground arith
          | inl (ids, known) ↦ ground (arith, mark_restricted_lem ids org [])
        ]
  ]

  populate_keeps :
      let t' = (populate_offline_restricted_orgs ams t).1 in
      (t'.has_connection ≡ true)
      × (t'.enforce_offline_org_restrictions ≡ t.enforce_offline_org_restrictions)
      × (t'.disable_all_validation ≡ t.disable_all_validation)
  unfolding populate_offline_restricted_orgs
  populate_keeps = ground arith

  check_flag :
      (check_enforce_offline_org_restrictions ams t).1.enforce_offline_org_restrictions
      ≡ or_before (told_flag ams) t.enforce_offline_org_restrictions
  unfolding check_enforce_offline_org_restrictions told_flag
  check_flag = ground arith

  check_flag_keeps :
      let t' = (check_enforce_offline_org_restrictions ams t).1 in
      (t'.has_connection ≡ true)
      × (t'.offline_restricted_orgs ≡ t.offline_restricted_orgs)
      × (t'.disable_all_validation ≡ t.disable_all_validation)
  unfolding check_enforce_offline_org_restrictions
  check_flag_keeps = ground arith

-- One round replaces the restricted organizations and the enforcement flag by what the server told,
-- each on its own, and keeps what the server did not tell.
pub check-told :
    (ams : Ams) (t : Middleware) (org : String)
    → t.has_connection ≡ true
    → (is_org_restricted_safe (check ams t) org
        ≡ or_before (listed (told_organizations ams) org) (is_org_restricted_safe t org))
      × (is_offline_org_restrictions_enabled_safe (check ams t)
          ≡ or_before (told_flag ams) (is_offline_org_restrictions_enabled_safe t))
unfolding check is_org_restricted_safe is_offline_org_restrictions_enabled_safe
check-told ams t org connected =
    let t' = (populate_offline_restricted_orgs ams t).1 in
    let (still, flag, _) = populate_keeps ams t connected in
    (
      rw ((check_flag_keeps ams t' still).1)
          (unfold is_org_restricted_safe in populate_restricted ams t connected org),
      check_flag ams t' still ∙ ap (or_before (told_flag ams)) flag,
    )

-- A round keeps the connection and the switch that disables validation.
pub check_keeps :
    (ams : Ams) (t : Middleware)
    → t.has_connection ≡ true
    → ((check ams t).has_connection ≡ true)
      × ((check ams t).disable_all_validation ≡ t.disable_all_validation)
unfolding check
check_keeps ams t connected =
    let t' = (populate_offline_restricted_orgs ams t).1 in
    let (still, _, active) = populate_keeps ams t connected in
    let (connected', _, active') = check_flag_keeps ams t' still in (connected', active' ∙ active)
