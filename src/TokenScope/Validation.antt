-- ===== src/TokenScope/Validation.antt =====
-- pkg/middleware/token_validation.go: ValidateScopes, ValidateOfflineAccessByOrg, ValidateAll and
-- Handler. A nil error is `none`; what a handler does to its response is a list of effects.
use ocm_service_common.Common.{
  ℕ, String, Bool, true, false, not, ◌&&◌, Option, none, some, List, [], ◌∷◌, ◌++◌, lookup, has,
  length, ltb, if◌then◌else◌,
}
use ocm_service_common.Common.Text.{split, contains}
use ocm_service_common.Common.Result.{Result, ok, err}
use ocm_service_common.Claims.{Value, object, entries, as_text, Claims, text_claim}
use ocm_service_common.TokenScope.State.{
  Error, no_organization_id, missing_required_scopes, unauthorized_scopes,
  offline_access_restricted, claims_failed, is_missing_token, Middleware, Context, claim_org_id,
  claim_scope, claim_organization, claim_id, scope_offline_access, token_claims_from_context,
  is_service_account, is_offline_org_restrictions_enabled_safe,
  get_offline_restricted_org_count_safe, is_org_restricted_safe,
}

-- The loop over RequiredScopes.
unfoldable pub missing_scopes : List String → List String → List String
missing_scopes [] scopes = []
missing_scopes (required ∷ more) scopes =
    let rest = missing_scopes more scopes in if has required scopes then rest else required ∷ rest

-- The loop over DenyScopes.
unfoldable pub denied_scopes : List String → List String → List String
denied_scopes [] scopes = []
denied_scopes (deny ∷ more) scopes =
    let rest = denied_scopes more scopes in if has deny scopes then deny ∷ rest else rest

abbrev pub is_set : List String → Bool
is_set xs = ltb 0 (length xs)

-- The denied scopes are looked at where no required scope is missing.
unfoldable pub check_scopes : Middleware → List String → Option Error
unfolding missing_scopes denied_scopes
check_scopes t scopes =
    let missing = missing_scopes t.required_scopes scopes in
    let denied = denied_scopes t.deny_scopes scopes in
    if is_set t.required_scopes && is_set missing
    then some (missing_required_scopes missing)
    else if is_set t.deny_scopes && is_set denied
    then some (unauthorized_scopes denied)
    else none

unfoldable pub validate_scope_claim : Middleware → Claims → Option Error
unfolding check_scopes is_service_account text_claim
validate_scope_claim t claims =
    if is_service_account claims && not t.enforce_service_account_scopes
    then none
    else elim (text_claim claims claim_scope) [
      | none ↦ none
      | some scopes ↦ check_scopes t (split scopes b' ')
    ]

unfoldable pub validate_scopes : Middleware → Context → Option Error
unfolding validate_scope_claim token_claims_from_context is_missing_token
validate_scopes t ctx =
    if t.disable_all_validation
    then none
    else if not (is_set t.deny_scopes) && not (is_set t.required_scopes)
    then none
    else elim (token_claims_from_context ctx) [
      | err e ↦
          if not t.error_on_missing_token && is_missing_token e
          then none
          else some (claims_failed e)
      | ok claims ↦ validate_scope_claim t claims
    ]

-- The fallback for the access scope claim: a missing claim, a nil and a claim that is no map leave
-- the organization empty.
unfoldable organization_of : Option Value → Result Error String
unfolding lookup
organization_of none = ok ""
organization_of (some (object es)) = elim (lookup claim_id (entries es)) [
  | none ↦ err no_organization_id
  | some v ↦ elim (as_text v) [ none ↦ err no_organization_id | some id ↦ ok id ]
]
organization_of (some _) = ok ""

unfoldable pub org_id_from_claims : Claims → Result Error String
unfolding organization_of text_claim lookup
org_id_from_claims claims = elim (text_claim claims claim_org_id) [
  | some org_id ↦ ok org_id
  | none ↦ organization_of (lookup claim_organization claims)
]

abbrev restricted_error : Bool → String → Option Error
restricted_error true org_id = some (offline_access_restricted org_id)
restricted_error false org_id = none

-- What follows the claims; `restricted` is what isOrgRestrictedSafe answers.
unfoldable pub validate_offline_claims : (String → Bool) → Claims → Option Error
unfolding is_service_account text_claim org_id_from_claims contains
validate_offline_claims restricted claims =
    if is_service_account claims then none else elim (text_claim claims claim_scope) [
      | none ↦ none
      | some scopes ↦
          if not (contains scopes scope_offline_access)
          then none
          else elim (org_id_from_claims claims) [
            | err e ↦ some e
            | ok org_id ↦ restricted_error (restricted org_id) org_id
          ]
    ]

-- ValidateOfflineAccessByOrg over what its three guarded reads returned. Each read takes the lock
-- anew, so a polling round may write between them.
unfoldable pub validate_offline_reads :
    Bool → ℕ → (String → Bool) → Middleware → Context → Option Error
unfolding validate_offline_claims token_claims_from_context is_missing_token
validate_offline_reads enabled count restricted t ctx =
    if t.disable_all_validation
    then none
    else if not enabled
    then none
    else if not (ltb 0 count)
    then none
    else elim (token_claims_from_context ctx) [
      | err e ↦ if not t.error_on_missing_token && is_missing_token e then none else some e
      | ok claims ↦ validate_offline_claims restricted claims
    ]

unfoldable pub validate_offline_access_by_org : Middleware → Context → Option Error
unfolding validate_offline_reads is_offline_org_restrictions_enabled_safe
    get_offline_restricted_org_count_safe is_org_restricted_safe
validate_offline_access_by_org t ctx =
    validate_offline_reads (is_offline_org_restrictions_enabled_safe t)
      (get_offline_restricted_org_count_safe t) (is_org_restricted_safe t) t ctx

unfoldable pub validate_all : Middleware → Context → Option Error
validate_all t ctx =
    if t.disable_all_validation then none else elim (validate_offline_access_by_org t ctx) [
      | some e ↦ some e
      | none ↦ validate_scopes t ctx
    ]

-- What the handler does, in order.
pub data Effect : Type 0 where
  call_callback : Option Error → Effect
  set_header : String → String → Effect
  write_header : ℕ → Effect
  serve_next : Effect

abbrev status_unauthorized : ℕ
status_unauthorized = 401

abbrev pub respond : Option Error → List Effect
respond none = serve_next ∷ []
respond (some e) =
    set_header "Content-Type" "application/json" ∷ write_header status_unauthorized ∷ []

unfoldable pub handler : Middleware → Context → List Effect
handler t ctx =
    let result = validate_all t ctx in
    (if t.has_callback then call_callback result ∷ [] else []) ++ respond result
