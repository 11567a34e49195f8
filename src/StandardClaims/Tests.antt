-- ===== src/StandardClaims/Tests.antt =====
-- The verification of the OCM claims at concrete claims.
use ocm_service_common.Common.{lookup, String, Bool, true, some, [], ◌∷◌, ◌≡◌, ◌↔◌, refl}
use ocm_service_common.Common.Result.{returns}
use ocm_service_common.Claims.{Claims, number, text}
use ocm_service_common.StandardClaims.{verify_ocm_claims}
use ocm_service_common.StandardClaims.Laws.{verify_ocm_claims-IsVerified_iff, IsVerified}

abbrev any_audience : Claims → String → Bool → Bool
any_audience claims expected required = true

abbrev account_claims : Claims
account_claims =
    ("iss", text "https://sso.redhat.com")
    ∷ ("scope", text "openid api.ocm")
    ∷ ("client_id", text "sa-1")
    ∷ []

abbrev odd_claims : Claims
odd_claims = ("iss", number 7) ∷ ("scope", text "api.ocm") ∷ []

accepted : verify_ocm_claims any_audience account_claims ≡ returns true
unfolding verify_ocm_claims
accepted = refl

odd_found : lookup "iss" odd_claims ≡ some (number 7)
unfolding lookup
odd_found = refl

verify_ocm_claims-IsVerified_iff_example :
    (verify_ocm_claims any_audience account_claims ≡ returns true)
    ↔ IsVerified any_audience account_claims
verify_ocm_claims-IsVerified_iff_example =
    verify_ocm_claims-IsVerified_iff any_audience account_claims
