-- ===== src/TokenScope/Tests.antt =====
-- Runs of the token scope validation on concrete requests, and the theorems at inputs that meet
-- their hypotheses.
use ocm_service_common.Common.{
  All-In, has, true, false, none, some, [], ◌∷◌, ◌≡◌, ◌≢◌, refl, ◌↔◌, In,
}
use ocm_service_common.Claims.{text_claim, Claims, text}
use ocm_service_common.TokenScope.State.{
  is_offline_org_restrictions_enabled_safe, offline_access_restricted, missing_required_scopes,
  sdk_error, is_service_account, Context, Middleware, is_org_restricted_safe, map_claims,
}
use ocm_service_common.TokenScope.Polling.{
  populate_offline_restricted_orgs, check_enforce_offline_org_restrictions, zero_middleware, check,
  poll, organization_search, Ams, tick, done,
}
use ocm_service_common.Common.Result.{ok, err}
use ocm_service_common.TokenScope.LoopLaws.{poll-told, poll-refuses, poll-fails_open, last_told}
use ocm_service_common.TokenScope.Validation.{
  org_id_from_claims, validate_all, handler, validate_scopes, serve_next,
  validate_offline_access_by_org, validate_offline_reads,
}
use ocm_service_common.TokenScope.Reading.{Holds}
use ocm_service_common.TokenScope.PollingLaws.{
  check-told, listed, or_before, told_flag, told_organizations,
}
use ocm_service_common.Common.Text.{contains, join, split}
use ocm_service_common.TokenScope.ScopeLaws.{validate_scopes-Accepts_iff, Accepts}
use ocm_service_common.TokenScope.OfflineLaws.{
  IsRestricted, validate_offline_reads-Refuses_iff, Refuses, handler-serves_iff,
}

abbrev base : Middleware
base = record zero_middleware {
  has_connection = true;
  deny_scopes = "admin" ∷ [];
  required_scopes = "api.ocm" ∷ "openid" ∷ [];
}

abbrev user_claims : Claims
user_claims = ("scope", text "openid offline_access") ∷ ("org_id", text "42") ∷ []

abbrev user : Context
user = record { token = some (map_claims user_claims); failed = false }

abbrev nobody : Context
nobody = record { token = none; failed = false }

abbrev answers : Ams
answers = record {
  search_labels = λ q. ok (some ("internal" ∷ []));
  search_organizations = λ q. ok ("42" ∷ "7" ∷ []);
  build_feature_request = λ f. ok f;
  review_feature = λ f. ok (record { status = 200; enabled = true });
}

abbrev outage : Ams
outage = record {
  search_labels = λ q. err (sdk_error "unreachable");
  search_organizations = λ q. err (sdk_error "unreachable");
  build_feature_request = λ f. ok f;
  review_feature = λ f. ok (record { status = 500; enabled = true });
}

runs : Unit {0}
unfolding check_enforce_offline_org_restrictions populate_offline_restricted_orgs validate_scopes
    validate_offline_access_by_org split poll told_flag told_organizations last_told handler
    validate_all
runs = tt

user_held : Holds user user_claims
user_held = record { sound = refl; held = refl }

missing_scope : validate_scopes base user ≡ some (missing_required_scopes ("api.ocm" ∷ []))
unfolding runs
missing_scope = refl

search_text : organization_search ("a" ∷ "b" ∷ []) ≡ "id in ('a', 'b')"
unfolding organization_search join
search_text = refl

offline_refused :
    validate_offline_access_by_org (poll (tick outage ∷ tick answers ∷ []) base) user
    ≡ some (offline_access_restricted "42")
unfolding runs
offline_refused = refl

validate_scopes-Accepts_iff_example : (validate_scopes base nobody ≡ none) ↔ Accepts base nobody
validate_scopes-Accepts_iff_example = validate_scopes-Accepts_iff base nobody

validate_offline_reads-Refuses_iff_example :
    (validate_offline_reads true 2 (λ o. has o ("42" ∷ "7" ∷ [])) base user
      ≡ some (offline_access_restricted "42"))
    ↔ Refuses true 2 (λ o. has o ("42" ∷ "7" ∷ [])) base user "42"
validate_offline_reads-Refuses_iff_example =
    validate_offline_reads-Refuses_iff true 2 (λ o. has o ("42" ∷ "7" ∷ [])) base user "42"

handler-serves_iff_example :
    In serve_next (handler base user)
    ↔ (Accepts base user × (validate_offline_access_by_org base user ≡ none))
handler-serves_iff_example = handler-serves_iff base user

not_served_example : ¬ (In serve_next (handler base user))
unfolding runs
not_served_example i =
    All-In (λ f. serve_next ≢ f) {xs = handler base user} ((cc), ((cc), tt)) i refl

check-told_example :
    (is_org_restricted_safe (check answers base) "42"
      ≡ or_before (listed (told_organizations answers) "42") (is_org_restricted_safe base "42"))
    × (is_offline_org_restrictions_enabled_safe (check answers base)
        ≡ or_before (told_flag answers) (is_offline_org_restrictions_enabled_safe base))
check-told_example = check-told answers base "42" refl

poll-told_example :
    (is_org_restricted_safe (poll (tick answers ∷ tick outage ∷ done ∷ []) base) "7"
      ≡ or_before
          (listed (last_told told_organizations (tick answers ∷ tick outage ∷ done ∷ [])) "7")
          (is_org_restricted_safe base "7"))
    × (is_offline_org_restrictions_enabled_safe (poll (tick answers ∷ tick outage ∷ done ∷ []) base)
        ≡ or_before
            (last_told told_flag (tick answers ∷ tick outage ∷ done ∷ []))
            (is_offline_org_restrictions_enabled_safe base))
poll-told_example = poll-told (tick answers ∷ tick outage ∷ done ∷ []) base "7" refl

quiet : last_told told_flag (tick outage ∷ []) ≢ some true
unfolding runs
quiet = cc

poll-fails_open_example : validate_offline_access_by_org (poll (tick outage ∷ []) base) user ≡ none
poll-fails_open_example = poll-fails_open (tick outage ∷ []) base user refl refl quiet

last_flag : last_told told_flag (tick answers ∷ tick outage ∷ []) ≡ some true
unfolding runs
last_flag = refl

last_organizations :
    last_told told_organizations (tick answers ∷ tick outage ∷ []) ≡ some ("42" ∷ "7" ∷ [])
unfolding runs
last_organizations = refl

user_IsRestricted : IsRestricted (λ o. has o ("42" ∷ "7" ∷ [])) user_claims "42"
unfolding is_service_account text_claim contains org_id_from_claims
user_IsRestricted = record {
  user = refl;
  scopes = "openid offline_access";
  scoped = refl;
  offline = refl;
  organization = refl;
  listed = refl;
}

poll-refuses_example :
    ¬ (In serve_next (handler (poll (tick answers ∷ tick outage ∷ []) base) user))
poll-refuses_example =
    poll-refuses (tick answers ∷ tick outage ∷ []) base user ("42" ∷ "7" ∷ []) user_claims "42" refl
      refl last_flag last_organizations user_held user_IsRestricted
