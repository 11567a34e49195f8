-- ===== src/StandardClaims/Laws.antt =====
-- The verification of the OCM claims: what is accepted, and when it panics.
use ocm_service_common.Common.{
  lookup-insert, str_eq, map, Bool-cases, Option-cases, ap, String, Bool, true, false, not, ◌&&◌,
  Option, none, some, List, [], ◌∷◌, ◌≡◌, ◌↔◌, ◌⊎◌, inl, inr, refl, arith, is_some, lookup,
  if◌then◌else◌,
}
use ocm_service_common.Common.Result.{Run-cases, Run, returns, panics}
use ocm_service_common.Claims.{Claims, Value, null, text, array, Values, values}
use ocm_service_common.StandardClaims.{
  audience, some_texts, or_null, map_client_id, is_cognito, verify_ocm_claims, and_audience,
  audience_texts, client_id_of, is_present, verify_scope_and_audience, ocm_identifier,
  has_ocm_scope,
}
use ocm_service_common.Common.Text.{contains}

-- A claim that is a text which holds the part.
abbrev pub Holds : Claims → String → String → Type 0
Holds claims key part =
    (s : String) × (lookup key claims ≡ some (text s)) × (contains s part ≡ true)

-- The issuer is absent, nil or a text: the assertion on it does not panic, and it is not Cognito.
pub data OtherIssuer (claims : Claims) : Type 0 where
  absent : lookup "iss" claims ≡ none → OtherIssuer claims
  nil_issuer : lookup "iss" claims ≡ some null → OtherIssuer claims
  named :
      (s : String)
      → lookup "iss" claims ≡ some (text s)
      → contains s "cognito" ≡ false
      → OtherIssuer claims

module _ (verify_audience : Claims → String → Bool → Bool) (claims : Claims) where
  -- The claims that are meant to pass: those of Cognito, and those with the scope of OCM that come
  -- from a service account or name OCM as their audience.
  pub data IsVerified : Type 0 where
    by_cognito : Holds claims "iss" "cognito" → IsVerified
    by_account :
        OtherIssuer claims
        → Holds claims "scope" ocm_identifier
        → is_present (client_id_of claims) ≡ true
        → IsVerified
    by_audience :
        OtherIssuer claims
        → Holds claims "scope" ocm_identifier
        → is_present (client_id_of claims) ≡ false
        → is_some (lookup "aud" claims) ≡ true
        → verify_audience claims ocm_identifier true ≡ true
        → IsVerified

  scope-Holds :
      (v : Value)
      → lookup "scope" claims ≡ some v
      → has_ocm_scope v ≡ returns true
      → Holds claims "scope" ocm_identifier
  unfolding has_ocm_scope
  scope-Holds (text s) found h = (s, found, ground arith)
  scope-Holds _ found h = cc

  Holds→scope :
      Holds claims "scope" ocm_identifier
      → (v : Value) × (lookup "scope" claims ≡ some v) × (has_ocm_scope v ≡ returns true)
  unfolding has_ocm_scope
  Holds→scope (s, found, part) = (text s, found, ap returns part)

  both_true :
      (r : Run Bool)
      → and_audience verify_audience claims r ≡ returns true
      → (r ≡ returns true) × (verify_audience claims ocm_identifier true ≡ true)
  both_true panics h = cc
  both_true (returns b) h = (ground arith, ground arith)

  issuer-cases :
      (v : Option Value)
      → lookup "iss" claims ≡ v
      → (is_cognito (lookup "iss" claims) ≡ panics)
        ⊎ ((Holds claims "iss" "cognito" × (is_cognito (lookup "iss" claims) ≡ returns true))
            ⊎ (OtherIssuer claims × (is_cognito (lookup "iss" claims) ≡ returns false)))
  unfolding is_cognito
  issuer-cases none e = inr (inr (OtherIssuer.absent e, ground arith))
  issuer-cases (some null) e = inr (inr (OtherIssuer.nil_issuer e, ground arith))
  issuer-cases (some (text s)) e = elim (Bool-cases (contains s "cognito")) [
    | inl yes_part ↦ inr (inl ((s, e, yes_part), ground arith))
    | inr no_part ↦ inr (inr (OtherIssuer.named s e no_part, ground arith))
  ]
  issuer-cases (some _) e = inl (ground arith)

  rest_sound :
      OtherIssuer claims
      → verify_scope_and_audience verify_audience claims ≡ returns true
      → IsVerified
  unfolding verify_scope_and_audience
  rest_sound other h = elim (Option-cases (lookup "scope" claims)) [
    | inl missing ↦ absurd (ground arith)
    | inr (v, found) ↦ elim (Bool-cases (is_present (client_id_of claims))) [
      | inl client ↦ IsVerified.by_account other (scope-Holds v found (ground arith)) client
      | inr user ↦ elim (Bool-cases (is_some (lookup "aud" claims))) [
        | inl aud ↦
            let (scoped, verified) = both_true (has_ocm_scope v) (ground arith) in
            IsVerified.by_audience other (scope-Holds v found scoped) user aud verified
        | inr none_aud ↦ absurd (ground arith)
      ]
    ]
  ]

  verify_sound : verify_ocm_claims verify_audience claims ≡ returns true → IsVerified
  unfolding verify_ocm_claims
  verify_sound h = elim (issuer-cases (lookup "iss" claims) refl) [
    | inl broken ↦ absurd (ground arith)
    | inr (inl (held, e)) ↦ IsVerified.by_cognito held
    | inr (inr (other, e)) ↦ rest_sound other (ground arith)
  ]

  Other→returns : OtherIssuer claims → is_cognito (lookup "iss" claims) ≡ returns false
  unfolding is_cognito
  Other→returns (OtherIssuer.absent e) = ground arith
  Other→returns (OtherIssuer.nil_issuer e) = ground arith
  Other→returns (OtherIssuer.named s e p) = ground arith

  verify_complete : IsVerified → verify_ocm_claims verify_audience claims ≡ returns true
  unfolding verify_ocm_claims
  verify_complete (IsVerified.by_cognito (s, e, part)) = unfold is_cognito in ground arith
  verify_complete (IsVerified.by_account other scope client) =
      let (v, found, scoped) = Holds→scope scope in
      unfold verify_scope_and_audience in ground (arith, Other→returns other)
  verify_complete (IsVerified.by_audience other scope user aud verified) =
      let (v, found, scoped) = Holds→scope scope in
      unfold verify_scope_and_audience in ground (arith, Other→returns other)

-- VerifyOCMClaims returns true, and does not panic, exactly where the issuer is a text that contains
-- "cognito", or else it is missing, nil or another text, the scope contains "api.ocm", and either there
-- is a client id or the audience is there and verified.
pub verify_ocm_claims-IsVerified_iff :
    (verify_audience : Claims → String → Bool → Bool) (claims : Claims)
    → (verify_ocm_claims verify_audience claims ≡ returns true) ↔ IsVerified verify_audience claims
verify_ocm_claims-IsVerified_iff verify_audience claims =
    (verify_sound verify_audience claims, verify_complete verify_audience claims)

abbrev is_assertable : Value → Bool
is_assertable null = true
is_assertable (text s) = true
is_assertable _ = false

-- An issuer that is neither nil nor a text makes VerifyOCMClaims panic, whatever else the claims
-- hold.
verify_ocm_claims-panics :
    (verify_audience : Claims → String → Bool → Bool) (claims : Claims) (iss : Value)
    → lookup "iss" claims ≡ some iss
    → is_assertable iss ≡ false
    → verify_ocm_claims verify_audience claims ≡ panics
unfolding verify_ocm_claims is_cognito
verify_ocm_claims-panics verify_audience claims iss found odd = ground arith

some_texts-returns :
    (r : Run (List String)) (texts : List String)
    → some_texts r ≡ returns (some texts)
    → r ≡ returns texts
some_texts-returns panics texts h = cc
some_texts-returns (returns t) texts h = ground arith

texts_sound :
    (auds : List Value) (texts : List String)
    → audience_texts auds ≡ returns texts
    → auds ≡ map text texts
unfolding audience_texts
texts_sound [] [] h = refl
texts_sound [] (t ∷ ts) h = cc
texts_sound (text a ∷ more) texts h = elim (Run-cases (audience_texts more)) [
  | inl broken ↦ absurd (ground arith)
  | inr (rest, e) ↦
      let same : texts ≡ a ∷ rest = ground arith in
      rw same (ap (λ (l : List Value). text a ∷ l) (texts_sound more rest e))
]
texts_sound (_ ∷ more) texts h = cc

texts_complete : (texts : List String) → audience_texts (map text texts) ≡ returns texts
unfolding audience_texts
texts_complete [] = refl
texts_complete (t ∷ ts) = rw (texts_complete ts)

-- An array of audiences is read exactly where each of its elements is a text, and then as those
-- texts in order; else the assertion on an element panics.
audience_array_iff :
    (auds : Values) (texts : List String)
    → (audience (array auds) ≡ returns (some texts)) ↔ (values auds ≡ map text texts)
unfolding audience
audience_array_iff auds texts = (
  λ h. texts_sound (values auds) texts (some_texts-returns (audience_texts (values auds)) texts h),
  λ e. rw (e, texts_complete texts),
)

-- After the fallback the client id under either key is found under `clientId`, and no other claim
-- has changed.
map_client_id-lookup :
    (claims : Claims) (key : String)
    → lookup key (map_client_id claims) ≡ (
        if str_eq "clientId" key
          && not (is_present (lookup "clientId" claims))
          && is_present (lookup "client_id" claims)
        then lookup "client_id" claims
        else lookup key claims)
unfolding map_client_id
map_client_id-lookup claims key =
    ground (arith, lookup-insert "clientId" key (or_null (lookup "client_id" claims)) claims)
