-- ===== src/TokenScope/OfflineLaws.antt =====
-- ValidateOfflineAccessByOrg, ValidateAll and Handler: exactly which requests are refused, and
-- what the response is.
use ocm_service_common.Common.{
  ◌++◌, [], Bool-cases, ◌∷◌, none, ◌↔◌, if◌then◌else◌, ℕ, All, All-In, ◌<◌, Any, In, ◌≢◌, ◌⊎◌,
  String, Bool, true, false, some, ◌≡◌, refl, inl, inr, arith, Option-cases,
}
use ocm_service_common.Common.Text.{contains}
use ocm_service_common.Common.Result.{Result, ok, err}
use ocm_service_common.Claims.{Claims, text_claim}
use ocm_service_common.TokenScope.State.{
  Context, is_missing_token, Middleware, no_organization_id, Error, offline_access_restricted,
  is_service_account, claim_scope, scope_offline_access,
}
use ocm_service_common.TokenScope.Reading.{Holds, no_token, no_claims, claims, read, read_claims}
use ocm_service_common.TokenScope.ScopeLaws.{Accepts, validate_scopes-Accepts_iff}
use ocm_service_common.TokenScope.Validation.{
  respond, validate_offline_reads, validate_offline_access_by_org, validate_scopes, validate_all,
  handler, serve_next, write_header, call_callback, org_id_from_claims, validate_offline_claims,
}

-- A token of a user that asks for offline access on behalf of a restricted organization.
pub record IsRestricted (restricted : String → Bool) (c : Claims) (org : String) : Type 0 where
  pub user : is_service_account c ≡ false
  pub scopes : String
  pub scoped : text_claim c claim_scope ≡ some scopes
  pub offline : contains scopes scope_offline_access ≡ true
  pub organization : org_id_from_claims c ≡ ok org
  pub listed : restricted org ≡ true

org_id-ne-restricted :
    (c : Claims) (e : Error) → org_id_from_claims c ≡ err e → e ≡ no_organization_id
unfolding org_id_from_claims
org_id-ne-restricted c e h = ground arith

org_id-cases :
    (c : Claims)
    → ((org : String) × (org_id_from_claims c ≡ ok org))
      ⊎ (org_id_from_claims c ≡ err no_organization_id)
org_id-cases c = go (org_id_from_claims c) refl
  where
    go :
        (r : Result Error String)
        → org_id_from_claims c ≡ r
        → ((org : String) × (org_id_from_claims c ≡ ok org))
          ⊎ (org_id_from_claims c ≡ err no_organization_id)
    go (ok org) e = inl (org, e)
    go (err f) e = inr (rw (← org_id-ne-restricted c f e) e)

module _ (restricted : String → Bool) (c : Claims) (org : String) where
  offline_claims-IsRestricted :
      validate_offline_claims restricted c ≡ some (offline_access_restricted org)
      → IsRestricted restricted c org
  unfolding validate_offline_claims
  offline_claims-IsRestricted h = elim (Option-cases (text_claim c claim_scope)) [
    | inl missing ↦ absurd (ground arith)
    | inr (s, found) ↦ elim (org_id-cases c) [
      | inl (own, e) ↦ record {
        user = ground arith;
        scopes = s;
        scoped = found;
        offline = ground arith;
        organization = ground arith;
        listed = ground arith;
      }
      | inr e ↦ absurd (ground arith)
    ]
  ]

  IsRestricted→offline_claims :
      IsRestricted restricted c org
      → validate_offline_claims restricted c ≡ some (offline_access_restricted org)
  unfolding validate_offline_claims
  IsRestricted→offline_claims r =
      ground (arith, r.user, r.scoped, r.offline, r.organization, r.listed)

-- The middleware refuses offline access for `org`, given what its three reads of the shared state
-- returned.
pub record Refuses (enabled : Bool) (count : ℕ) (restricted : String → Bool) (t : Middleware)
    (ctx : Context) (org : String) : Type 0 where
  pub active : t.disable_all_validation ≡ false
  pub enforced : enabled ≡ true
  pub populated : 0 < count
  pub token : Claims
  pub held : Holds ctx token
  pub is_restricted : IsRestricted restricted token org

module _ (enabled : Bool) (count : ℕ) (restricted : String → Bool) (t : Middleware) (ctx : Context)
    (org : String) where
  reads-Refuses :
      validate_offline_reads enabled count restricted t ctx ≡ some (offline_access_restricted org)
      → Refuses enabled count restricted t ctx org
  unfolding validate_offline_reads
  reads-Refuses h = elim (read ctx) [
    | no_token sound gone e ↦ absurd (unfold is_missing_token in ground arith)
    | no_claims e strange failed ↦ absurd (ground arith)
    | claims c held e ↦ record {
      active = ground arith;
      enforced = ground arith;
      populated = ground arith;
      token = c;
      held = held;
      is_restricted = offline_claims-IsRestricted restricted c org (ground arith);
    }
  ]

  Refuses→reads :
      Refuses enabled count restricted t ctx org
      → validate_offline_reads enabled count restricted t ctx ≡ some (offline_access_restricted org)
  unfolding validate_offline_reads
  Refuses→reads r = ground (
    arith,
    r.active,
    r.enforced,
    r.populated,
    read_claims ctx r.token r.held,
    IsRestricted→offline_claims restricted r.token org r.is_restricted,
  )

-- Whatever polling rounds run between its three reads, ValidateOfflineAccessByOrg refuses an
-- organization exactly where enforcement was on at the first read, an organization was listed at
-- the second, and the token is a user's offline token for an organization that was listed at the
-- third.
pub validate_offline_reads-Refuses_iff :
    (enabled : Bool) (count : ℕ) (restricted : String → Bool) (t : Middleware) (ctx : Context)
    (org : String)
    → (validate_offline_reads enabled count restricted t ctx ≡ some (offline_access_restricted org))
      ↔ Refuses enabled count restricted t ctx org
validate_offline_reads-Refuses_iff enabled count restricted t ctx org = (
  reads-Refuses enabled count restricted t ctx org,
  Refuses→reads enabled count restricted t ctx org,
)

validate_all-eq-none_iff :
    (t : Middleware) (ctx : Context)
    → (validate_all t ctx ≡ none)
      ↔ ((validate_offline_access_by_org t ctx ≡ none) × (validate_scopes t ctx ≡ none))
unfolding validate_all
validate_all-eq-none_iff t ctx = elim (Bool-cases t.disable_all_validation) [
  | inl off ↦ unfold validate_offline_access_by_org validate_scopes in ground arith
  | inr on ↦ ground arith
]

not_served :
    (callback : Bool) (e : Error)
    → All
        (λ f. serve_next ≢ f)
        ((if callback then call_callback (some e) ∷ [] else []) ++ respond (some e))
not_served true e = (cc, (cc, (cc, tt)))
not_served false e = (cc, (cc, tt))

served :
    (callback : Bool)
    → In serve_next ((if callback then call_callback none ∷ [] else []) ++ respond none)
served true = Any.there (Any.here refl)
served false = Any.here refl

unauthorized :
    (callback : Bool) (e : Error)
    → In
        (write_header 401)
        ((if callback then call_callback (some e) ∷ [] else []) ++ respond (some e))
unauthorized true e = Any.there (Any.there (Any.here refl))
unauthorized false e = Any.there (Any.here refl)

module _ (t : Middleware) (ctx : Context) where
  served-validate_all : In serve_next (handler t ctx) → validate_all t ctx ≡ none
  unfolding handler
  served-validate_all i = elim (Option-cases (validate_all t ctx)) [
    | inl fine ↦ fine
    | inr (e, refused) ↦
        absurd (All-In (λ f. serve_next ≢ f) (rw refused (not_served t.has_callback e)) i refl)
  ]

  validate_all-served : validate_all t ctx ≡ none → In serve_next (handler t ctx)
  unfolding handler
  validate_all-served fine = rw fine (served t.has_callback)

-- The handler runs the next handler exactly for the requests that scope validation accepts and
-- that offline validation does not refuse.
pub handler-serves_iff :
    (t : Middleware) (ctx : Context)
    → In serve_next (handler t ctx)
      ↔ (Accepts t ctx × (validate_offline_access_by_org t ctx ≡ none))
handler-serves_iff t ctx = (
  λ i.
      let (offline, scopes) = (validate_all-eq-none_iff t ctx).0 (served-validate_all t ctx i) in
      ((validate_scopes-Accepts_iff t ctx).0 scopes, offline),
  λ h.
      validate_all-served t ctx
        ((validate_all-eq-none_iff t ctx).1 (h.1, (validate_scopes-Accepts_iff t ctx).1 h.0)),
)

-- A request that is not served is answered with status 401.
handler-unauthorized :
    (t : Middleware) (ctx : Context)
    → ¬ (In serve_next (handler t ctx))
    → In (write_header 401) (handler t ctx)
unfolding handler
handler-unauthorized t ctx refused = elim (Option-cases (validate_all t ctx)) [
  | inl fine ↦ absurd (refused (validate_all-served t ctx fine))
  | inr (e, why) ↦ rw why (unauthorized t.has_callback e)
]
