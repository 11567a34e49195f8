-- ===== src/StandardClaims.antt =====
-- pkg/middleware/standard_claims.go: the verification of the OCM claims, the audience, and the
-- fallback for the client id. A type assertion without `ok` panics; `VerifyAudience` belongs to
-- the JWT library and is a parameter. `json.Marshal` and `json.Unmarshal` are left out.
pub mod Laws
mod Tests
use ocm_service_common.Common.{
  String, Bool, true, false, not, ◌&&◌, Option, none, some, List, [], ◌∷◌, is_some, lookup, insert,
  if◌then◌else◌,
}
use ocm_service_common.Common.Result.{Run, returns, panics}
use ocm_service_common.Claims.{
  Claims, Value, null, boolean, number, text, array, object, Values, nil, cons, values,
}
use ocm_service_common.Common.Text.{contains}

abbrev pub ocm_identifier : String
ocm_identifier = "api.ocm"

-- `issExists && iss != nil && strings.Contains(iss.(string), "cognito")`.
unfoldable pub is_cognito : Option Value → Run Bool
unfolding contains
is_cognito none = returns false
is_cognito (some null) = returns false
is_cognito (some (text iss)) = returns (contains iss "cognito")
is_cognito (some _) = panics

-- `strings.Contains(scope.(string), OCMIdentifier)`.
unfoldable pub has_ocm_scope : Value → Run Bool
unfolding contains
has_ocm_scope (text scope) = returns (contains scope ocm_identifier)
has_ocm_scope _ = panics

abbrev pub is_present : Option Value → Bool
is_present none = false
is_present (some null) = false
is_present (some _) = true

-- The key `clientId`, or `client_id` where the first is absent.
unfoldable pub client_id_of : Claims → Option Value
unfolding lookup
client_id_of claims = elim (lookup "clientId" claims) [
  | some v ↦ some v
  | none ↦ lookup "client_id" claims
]

module _ (verify_audience : Claims → String → Bool → Bool) where
  abbrev pub and_audience : Claims → Run Bool → Run Bool
  and_audience claims panics = panics
  and_audience claims (returns scoped) =
      returns (scoped && verify_audience claims ocm_identifier true)

  -- What follows the test for Cognito.
  unfoldable pub verify_scope_and_audience : Claims → Run Bool
  unfolding client_id_of has_ocm_scope lookup
  verify_scope_and_audience claims = elim (lookup "scope" claims) [
    | none ↦ returns false
    | some scope ↦
        if is_present (client_id_of claims)
        then has_ocm_scope scope
        else if not (is_some (lookup "aud" claims))
        then returns false
        else and_audience claims (has_ocm_scope scope)
  ]

  unfoldable pub verify_ocm_claims : Claims → Run Bool
  unfolding is_cognito verify_scope_and_audience lookup
  verify_ocm_claims claims = elim (is_cognito (lookup "iss" claims)) [
    | panics ↦ panics
    | returns true ↦ returns true
    | returns false ↦ verify_scope_and_audience claims
  ]

-- The elements of an array of audiences, each asserted to be a text.
unfoldable pub audience_texts : List Value → Run (List String)
audience_texts [] = returns []
audience_texts (text aud ∷ more) = elim (audience_texts more) [
  | panics ↦ panics
  | returns rest ↦ returns (aud ∷ rest)
]
audience_texts (_ ∷ more) = panics

abbrev pub some_texts : Run (List String) → Run (Option (List String))
some_texts panics = panics
some_texts (returns auds) = returns (some auds)

-- The audience by the dynamic type of the `aud` claim; a nil slice is `none`.
unfoldable pub audience : Value → Run (Option (List String))
unfolding audience_texts
audience (text aud) = returns (some (aud ∷ []))
audience (array auds) = some_texts (audience_texts (values auds))
audience _ = returns none

-- The fallback of UnmarshalFromToken: a missing key reads as nil.
abbrev pub or_null : Option Value → Value
or_null none = null
or_null (some v) = v

unfoldable pub map_client_id : Claims → Claims
unfolding lookup insert
map_client_id claims =
    if not (is_present (lookup "clientId" claims)) && is_present (lookup "client_id" claims)
    then insert "clientId" (or_null (lookup "client_id" claims)) claims
    else claims
