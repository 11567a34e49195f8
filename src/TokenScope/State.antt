-- ===== src/TokenScope/State.antt =====
-- pkg/middleware/token_validation.go: the constants, the errors, the struct
-- `TokenScopeValidationMiddlewareImpl` and its guarded accessors, and the claims of the context.
use ocm_service_common.Common.{
  ℕ, String, Bool, true, false, not, ◌&&◌, ◌||◌, Option, none, some, List, lookup, length, is_some,
  if◌then◌else◌,
}
use ocm_service_common.Common.Int.{ℤ}
use ocm_service_common.Common.Result.{Result, ok, err}
use ocm_service_common.Claims.{Claims, has_claim}

abbrev pub flag_enforce_offline_token_restrictions : String
flag_enforce_offline_token_restrictions = "enforce-offline-token-restrictions"

abbrev offline_access_capability_key : String
offline_access_capability_key = "capability.organization.restrict_offline_tokens"

abbrev pub scope_offline_access : String
scope_offline_access = "offline_access"

abbrev pub claim_org_id : String
claim_org_id = "org_id"

abbrev pub claim_scope : String
claim_scope = "scope"

abbrev pub claim_organization : String
claim_organization = "organization"

abbrev pub claim_id : String
claim_id = "id"

abbrev claim_client_id : String
claim_client_id = "client_id"

abbrev claim_client_id_legacy : String
claim_client_id_legacy = "clientId"

-- The errors that the middleware returns; `claims_failed` wraps one by `%w`.
pub data Error : Type 0 where
  missing_token invalid_token cannot_convert_token missing_sdk_connection no_organization_id : Error
  missing_required_scopes unauthorized_scopes : List String → Error
  offline_access_restricted : String → Error
  claims_failed : Error → Error
  sdk_error : String → Error
  unexpected_status : ℕ → String → Error

-- `errors.Is(err, ErrMissingToken)`, which unwraps.
unfoldable pub is_missing_token : Error → Bool
is_missing_token missing_token = true
is_missing_token (claims_failed e) = is_missing_token e
is_missing_token _ = false

-- `errors.Is(err, ErrMissingSDKConnection)`.
unfoldable pub is_missing_sdk_connection : Error → Bool
is_missing_sdk_connection missing_sdk_connection = true
is_missing_sdk_connection (claims_failed e) = is_missing_sdk_connection e
is_missing_sdk_connection _ = false

-- The struct. A pointer, function or interface that the code only compares with nil is a Boolean;
-- the mutex is left out, and its sections are the accessors below.
pub record Middleware : Type 0 where
  pub offline_restricted_orgs : List (String × Bool)
  pub enforce_offline_org_restrictions : Bool
  pub has_connection : Bool
  pub disable_all_validation : Bool
  pub error_on_missing_token : Bool
  pub deny_scopes : List String
  pub required_scopes : List String
  pub has_callback : Bool
  pub enforce_service_account_scopes : Bool
  pub polling_interval_override : ℤ
  pub has_logger : Bool

unfoldable pub get_offline_restricted_org_count_safe : Middleware → ℕ
get_offline_restricted_org_count_safe t = length t.offline_restricted_orgs

-- A missing key reads as false.
abbrev pub or_false : Option Bool → Bool
or_false none = false
or_false (some b) = b

unfoldable pub is_org_restricted_safe : Middleware → String → Bool
unfolding lookup
is_org_restricted_safe t org_id = or_false (lookup org_id t.offline_restricted_orgs)

unfoldable pub set_offline_restricted_orgs_safe : List (String × Bool) → Middleware → Middleware
set_offline_restricted_orgs_safe orgs t = record t { offline_restricted_orgs = orgs }

unfoldable pub is_offline_org_restrictions_enabled_safe : Middleware → Bool
is_offline_org_restrictions_enabled_safe t = t.enforce_offline_org_restrictions

unfoldable pub set_enforce_offline_org_restrictions_safe : Bool → Middleware → Middleware
set_enforce_offline_org_restrictions_safe enforce t = record t {
  enforce_offline_org_restrictions = enforce;
}

-- `token.Claims` is an interface; the code knows one dynamic type of it.
pub data TokenClaims : Type 0 where
  map_claims : Claims → TokenClaims
  other_claims : TokenClaims

-- A context stands for what `authentication.TokenFromContext` returns for it: a token, if one is
-- there, and whether there was an error.
pub record Context : Type 0 where
  pub token : Option TokenClaims
  pub failed : Bool

convert_claims : TokenClaims → Result Error Claims
convert_claims (map_claims c) = ok c
convert_claims other_claims = err cannot_convert_token

unfoldable pub token_claims_from_context : Context → Result Error Claims
unfolding convert_claims
token_claims_from_context ctx =
    if not ctx.failed && not (is_some ctx.token)
    then err missing_token
    else if ctx.failed
    then err invalid_token
    else elim ctx.token [ none ↦ err invalid_token | some token ↦ convert_claims token ]

unfoldable pub is_service_account : Claims → Bool
unfolding has_claim
is_service_account claims =
    has_claim claims claim_client_id || has_claim claims claim_client_id_legacy
