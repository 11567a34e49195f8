-- ===== src/TokenScope/Polling.antt =====
-- pkg/middleware/token_validation.go and token_validation_options.go: the constructor with its
-- options, and the polling of AMS. The connection's answers are a parameter: `Ams` is what the
-- server returns during one round. Log lines are left out.
use ocm_service_common.Common.{
  not, ◌==◌, ℕ, String, Bool, true, false, Option, none, some, List, [], ◌∷◌, map, insert,
  if◌then◌else◌,
}
use ocm_service_common.Common.Int.{ℤ, pos, is_pos}
use ocm_service_common.Common.Text.{join, concat}
use ocm_service_common.Common.Result.{◌>>=◌, ok, err, Result}
use ocm_service_common.TokenScope.State.{
  unexpected_status, flag_enforce_offline_token_restrictions, missing_sdk_connection,
  set_enforce_offline_org_restrictions_safe, Middleware, Error, set_offline_restricted_orgs_safe,
  is_missing_sdk_connection,
}

-- A response to a feature review: its status, and the flag that it carries.
pub record FeatureReview : Type 0 where
  pub status : ℕ
  pub enabled : Bool

-- The SDK's calls, as functions from what is sent. Labels come as their organization ids, `none`
-- for a response without items; organizations come as their external ids.
pub record Ams : Type 0 where
  pub search_labels : String → Result Error (Option (List String))
  pub search_organizations : String → Result Error (List String)
  pub build_feature_request : String → Result Error String
  pub review_feature : String → Result Error FeatureReview

abbrev pub label_search : String
label_search =
    "key = 'capability.organization.restrict_offline_tokens' and internal = true and value = 'true'"

unfoldable quoted : String → String
quoted org = concat ("'" ∷ org ∷ "'" ∷ [])

unfoldable pub organization_search : List String → String
unfolding quoted
organization_search organizations =
    concat ("id in (" ∷ join (map quoted organizations) ", " ∷ ")" ∷ [])

-- `offlineRestrictedOrgs[externalId] = true`, for each item.
unfoldable pub mark_restricted : List String → List (String × Bool) → List (String × Bool)
unfolding insert
mark_restricted [] orgs = orgs
mark_restricted (external_id ∷ more) orgs = mark_restricted more (insert external_id true orgs)

-- Whether the operation succeeded, with its error.
abbrev Outcome : Type 0
Outcome = Bool × Option Error

populate_from_organizations : Result Error (List String) → Middleware → Outcome × Middleware
unfolding set_offline_restricted_orgs_safe mark_restricted
populate_from_organizations (err e) t = ((false, some e), t)
populate_from_organizations (ok external_ids) t =
    ((true, none), set_offline_restricted_orgs_safe (mark_restricted external_ids []) t)

populate_from_labels : Ams → Result Error (Option (List String)) → Middleware → Outcome × Middleware
unfolding set_offline_restricted_orgs_safe populate_from_organizations
populate_from_labels ams (err e) t = ((false, some e), t)
populate_from_labels ams (ok none) t = ((true, none), set_offline_restricted_orgs_safe [] t)
populate_from_labels ams (ok (some [])) t = ((true, none), set_offline_restricted_orgs_safe [] t)
populate_from_labels ams (ok (some organizations)) t =
    populate_from_organizations (ams.search_organizations (organization_search organizations)) t

unfoldable pub populate_offline_restricted_orgs : Ams → Middleware → Outcome × Middleware
unfolding populate_from_labels
populate_offline_restricted_orgs ams t =
    if not t.has_connection
    then ((true, none), t)
    else populate_from_labels ams (ams.search_labels label_search) t

abbrev status_ok : ℕ
status_ok = 200

-- What follows a review that was answered.
abbrev pub reviewed : String → FeatureReview → Result Error Bool
reviewed feature r =
    if r.status == status_ok then ok r.enabled else err (unexpected_status r.status feature)

unfoldable is_feature_enabled : Ams → Middleware → String → Result Error Bool
is_feature_enabled ams t feature = if not t.has_connection then err missing_sdk_connection else do
  request ← ams.build_feature_request feature
  response ← ams.review_feature request
  reviewed feature response

abbrev flag_outcome : Result Error Bool → Middleware → Outcome × Middleware
flag_outcome (err e) t =
    if is_missing_sdk_connection e then ((true, none), t) else ((false, some e), t)
flag_outcome (ok enabled) t = ((true, none), set_enforce_offline_org_restrictions_safe enabled t)

unfoldable pub check_enforce_offline_org_restrictions : Ams → Middleware → Outcome × Middleware
unfolding is_feature_enabled is_missing_sdk_connection set_enforce_offline_org_restrictions_safe
check_enforce_offline_org_restrictions ams t =
    flag_outcome (is_feature_enabled ams t flag_enforce_offline_token_restrictions) t

-- One polling round: a failure of the first half does not keep the second from running.
unfoldable pub check : Ams → Middleware → Middleware
check ams t =
    (check_enforce_offline_org_restrictions ams (populate_offline_restricted_orgs ams t).1).1

-- The same two steps before the first request; they differ from `check` in what they log.
unfoldable pre_steps : Ams → Middleware → Middleware
pre_steps ams t =
    (check_enforce_offline_org_restrictions ams (populate_offline_restricted_orgs ams t).1).1

-- The options that the package offers.
data MiddlewareOption : Type 0 where
  with_connection : Bool → MiddlewareOption
  with_polling_interval : ℤ → MiddlewareOption
  with_callback : Bool → MiddlewareOption
  with_logger : Bool → MiddlewareOption
  with_error_on_missing_token : MiddlewareOption

unfoldable apply_option : MiddlewareOption → Middleware → Middleware
apply_option (with_connection present) t = record t { has_connection = present }
apply_option (with_polling_interval interval) t = record t { polling_interval_override = interval }
apply_option (with_callback present) t = record t { has_callback = present }
apply_option (with_logger present) t = record t { has_logger = present }
apply_option with_error_on_missing_token t = record t { error_on_missing_token = true }

unfoldable apply_options : List MiddlewareOption → Middleware → Middleware
unfolding apply_option
apply_options [] t = t
apply_options (o ∷ os) t = apply_options os (apply_option o t)

abbrev pub zero_middleware : Middleware
zero_middleware = record {
  offline_restricted_orgs = [];
  enforce_offline_org_restrictions = false;
  has_connection = false;
  disable_all_validation = false;
  error_on_missing_token = false;
  deny_scopes = [];
  required_scopes = [];
  has_callback = false;
  enforce_service_account_scopes = false;
  polling_interval_override = pos 0;
  has_logger = false;
}

unfoldable new_token_scope_validation_middleware : Ams → List MiddlewareOption → Middleware
unfolding apply_options pre_steps
new_token_scope_validation_middleware ams options =
    let t = record (apply_options options zero_middleware) { has_logger = true } in
    if not t.has_connection then t else pre_steps ams t

-- The default of five minutes, in nanoseconds.
abbrev default_polling_interval : ℤ
default_polling_interval = pos 300000000000

unfoldable ticker_duration : Middleware → ℤ
ticker_duration t =
    if is_pos t.polling_interval_override
    then t.polling_interval_override
    else default_polling_interval

-- What a `select` of the loop receives: a tick, with the answers of its round, or the end of the
-- context.
pub data Signal : Type 0 where
  tick : Ams → Signal
  done : Signal

-- The loop, over the signals in the order in which they are received.
unfoldable pub poll : List Signal → Middleware → Middleware
unfolding check
poll [] t = t
poll (done ∷ signals) t = t
poll (tick ams ∷ signals) t = poll signals (check ams t)

-- Every path through Start uses the logger first: a nil one panics, which is `none`.
unfoldable pub start : List Signal → Middleware → Option Middleware
unfolding poll
start signals t =
    if not t.has_logger
    then none
    else if not t.has_connection
    then some t
    else some (poll signals t)

unfoldable start_polling_ams_for_restricted_orgs : Ams → List Signal → Middleware → Middleware
unfolding pre_steps poll
start_polling_ams_for_restricted_orgs ams signals t =
    if not t.has_connection then t else poll signals (pre_steps ams t)
