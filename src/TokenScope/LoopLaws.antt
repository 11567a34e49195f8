-- ===== src/TokenScope/LoopLaws.antt =====
-- The polling loop over any number of rounds, and what its state means for a request.
use ocm_service_common.TokenScope.Polling.{Signal, tick, done}
use ocm_service_common.Common.{
  has, length, ◌<◌, lookup, String, Bool, true, false, Option, none, some, List, [], ◌∷◌, ◌≡◌, ◌≢◌,
  refl, arith, In, ◌∙◌,
}
use ocm_service_common.TokenScope.Polling.{tick, Signal, Ams, check, poll}
use ocm_service_common.TokenScope.State.{
  get_offline_restricted_org_count_safe, offline_access_restricted, or_false, Context,
  is_offline_org_restrictions_enabled_safe, is_org_restricted_safe, Middleware,
}
use ocm_service_common.TokenScope.PollingLaws.{
  check-told, check_keeps, told_flag, told_organizations, listed, or_before,
}
use ocm_service_common.TokenScope.Validation.{handler, serve_next, validate_offline_access_by_org}
use ocm_service_common.Claims.{Claims}
use ocm_service_common.TokenScope.Reading.{Holds}
use ocm_service_common.TokenScope.OfflineLaws.{
  handler-serves_iff, validate_offline_reads-Refuses_iff, IsRestricted,
}

-- What the last answer to one of the loop's questions was, among the ticks before the end.
unfoldable pub last_told {ℓ} : {A : Type ℓ} → (Ams → Option A) → List Signal → Option A
last_told told [] = none
last_told told (done ∷ signals) = none
last_told told (tick ams ∷ signals) = elim (last_told told signals) [
  | some a ↦ some a
  | none ↦ told ams
]

module _ (org : String) where
  poll_told :
      (signals : List Signal) (t : Middleware)
      → t.has_connection ≡ true
      → (is_org_restricted_safe (poll signals t) org
          ≡ or_before
              (listed (last_told told_organizations signals) org)
              (is_org_restricted_safe t org))
        × (is_offline_org_restrictions_enabled_safe (poll signals t)
            ≡ or_before (last_told told_flag signals) (is_offline_org_restrictions_enabled_safe t))
  unfolding poll last_told
  poll_told [] t connected = (refl, refl)
  poll_told (done ∷ signals) t connected = (refl, refl)
  poll_told (tick ams ∷ signals) t connected = ground (
    arith,
    poll_told signals (check ams t) (check_keeps ams t connected).0,
    check-told ams t org connected,
  )

poll_active :
    (signals : List Signal) (t : Middleware)
    → t.has_connection ≡ true
    → (poll signals t).disable_all_validation ≡ t.disable_all_validation
unfolding poll
poll_active [] t connected = refl
poll_active (done ∷ signals) t connected = refl
poll_active (tick ams ∷ signals) t connected =
    poll_active signals (check ams t) (check_keeps ams t connected).0
    ∙ (check_keeps ams t connected).1

lookup-true-length :
    (org : String) (m : List (String × Bool)) → or_false (lookup org m) ≡ true → 0 < length m
unfolding lookup
lookup-true-length org [] h = absurd (ground arith)
lookup-true-length org (e ∷ m) h = omega arith

-- After any number of rounds the enforcement flag and the restriction of each organization are
-- what the last answer told, and what they were at the start if no round was answered.
pub poll-told :
    (signals : List Signal) (t : Middleware) (org : String)
    → t.has_connection ≡ true
    → (is_org_restricted_safe (poll signals t) org
        ≡ or_before
            (listed (last_told told_organizations signals) org)
            (is_org_restricted_safe t org))
      × (is_offline_org_restrictions_enabled_safe (poll signals t)
          ≡ or_before (last_told told_flag signals) (is_offline_org_restrictions_enabled_safe t))
poll-told signals t org connected = poll_told org signals t connected

-- Failing open: where enforcement was off at the start and the last answered review, if any, left
-- it off, no request is refused for offline access, whatever else the rounds returned.
pub poll-fails_open :
    (signals : List Signal) (t : Middleware) (ctx : Context)
    → t.has_connection ≡ true
    → t.enforce_offline_org_restrictions ≡ false
    → last_told told_flag signals ≢ some true
    → validate_offline_access_by_org (poll signals t) ctx ≡ none
unfolding validate_offline_access_by_org
poll-fails_open signals t ctx connected off quiet =
    let known = (poll_told "" signals t connected).1 in
    let off' : (poll signals t).enforce_offline_org_restrictions ≡ false =
      unfold is_offline_org_restrictions_enabled_safe in ground arith in
    ground arith

-- With a connection, and where validation is not disabled as a whole: once the last answered review
-- switched enforcement on and the last answered search listed the organization of a user's offline
-- token, the handler does not serve the request.
pub poll-refuses :
    (signals : List Signal) (t : Middleware) (ctx : Context) (ids : List String) (c : Claims)
    (org : String)
    → t.has_connection ≡ true
    → t.disable_all_validation ≡ false
    → last_told told_flag signals ≡ some true
    → last_told told_organizations signals ≡ some ids
    → Holds ctx c
    → IsRestricted (λ o. has o ids) c org
    → ¬ (In serve_next (handler (poll signals t) ctx))
poll-refuses signals t ctx ids c org connected active on told held r served =
    let t' = poll signals t in
    let known = poll_told org signals t connected in
    let restricted : is_org_restricted_safe t' org ≡ true = ground (arith, r.listed) in
    let listed_some : 0 < length t'.offline_restricted_orgs =
      lookup-true-length org t'.offline_restricted_orgs
        (unfold is_org_restricted_safe in restricted) in
    let switched_on : is_offline_org_restrictions_enabled_safe t' ≡ true = ground arith in
    let refused : validate_offline_access_by_org t' ctx ≡ some (offline_access_restricted org) =
      unfold validate_offline_access_by_org in
      (validate_offline_reads-Refuses_iff (is_offline_org_restrictions_enabled_safe t')
          (get_offline_restricted_org_count_safe t') (is_org_restricted_safe t') t' ctx org).1
        (record {
          active = poll_active signals t connected ∙ active;
          enforced = switched_on;
          populated = listed_some;
          token = c;
          held = held;
          is_restricted = record {
            user = r.user;
            scopes = r.scopes;
            scoped = r.scoped;
            offline = r.offline;
            organization = r.organization;
            listed = restricted;
          };
        }) in
    cc (refused, ((handler-serves_iff t' ctx).0 served).1)
