-- ===== src/TokenScope/ScopeLaws.antt =====
-- ValidateScopes: the lists that its errors carry, and exactly which requests it lets through.
use mathlib.Core.Path.{subst}
use ocm_service_common.Common.{
  sym, ◌&&◌, String, true, false, not, none, some, List, [], ◌≡◌, ◌↔◌, inl, inr, arith, All, In,
  has, keep, Bool-cases, Option-cases,
}
use ocm_service_common.Common.Text.{split}
use ocm_service_common.Claims.{Claims, text_claim}
use ocm_service_common.TokenScope.State.{
  is_missing_token, Middleware, Context, is_service_account, claim_scope,
}
use ocm_service_common.TokenScope.Reading.{
  Holds, no_token, no_claims, claims, read, read_no_token, read_claims,
}
use ocm_service_common.TokenScope.Validation.{is_set, validate_scope_claim, validate_scopes}
use ocm_service_common.TokenScope.ScopeLists.{
  verdict, missing_scopes-keep, denied_scopes-keep, check_scopes_lem, check_scopes-eq-none_iff,
  unset,
}

All-of_nil : (P : String → Type 0) {xs : List String} → xs ≡ [] → All P xs
All-of_nil P e = subst (All P) (sym e) tt

-- The requests that scope validation is meant to let through.
pub data Accepts (t : Middleware) (ctx : Context) : Type 0 where
  disabled : t.disable_all_validation ≡ true → Accepts t ctx
  unconfigured : t.deny_scopes ≡ [] → t.required_scopes ≡ [] → Accepts t ctx
  anonymous :
      t.error_on_missing_token ≡ false → ctx.failed ≡ false → ctx.token ≡ none → Accepts t ctx
  service_account :
      (c : Claims)
      → Holds ctx c
      → is_service_account c ≡ true
      → t.enforce_service_account_scopes ≡ false
      → Accepts t ctx
  unscoped : (c : Claims) → Holds ctx c → text_claim c claim_scope ≡ none → Accepts t ctx
  conforming :
      (c : Claims) (scopes : String)
      → Holds ctx c
      → text_claim c claim_scope ≡ some scopes
      → All (λ r. In r (split scopes b' ')) t.required_scopes
      → All (λ d. ¬ (In d (split scopes b' '))) t.deny_scopes
      → Accepts t ctx

module _ (t : Middleware) (ctx : Context) where
  scope_claim-Accepts : (c : Claims) → Holds ctx c → validate_scope_claim t c ≡ none → Accepts t ctx
  unfolding validate_scope_claim
  scope_claim-Accepts c held h = elim (Option-cases (text_claim c claim_scope)) [
    | inl missing ↦ Accepts.unscoped c held missing
    | inr (s, found) ↦
        elim (Bool-cases (is_service_account c && not t.enforce_service_account_scopes)) [
          | inl exempt ↦ Accepts.service_account c held (ground arith) (ground arith)
          | inr bound ↦
              let (required, denied) =
                (check_scopes-eq-none_iff t (split s b' ')).0
                  (rw (bound, found, validate_scope_claim) at h) in
              Accepts.conforming c s held found required denied
        ]
  ]

  validate_scopes-Accepts : validate_scopes t ctx ≡ none → Accepts t ctx
  unfolding validate_scopes is_missing_token
  validate_scopes-Accepts h = elim (Bool-cases t.disable_all_validation) [
    | inl off ↦ Accepts.disabled off
    | inr on ↦ elim (Bool-cases (not (is_set t.deny_scopes) && not (is_set t.required_scopes))) [
      | inl idle ↦
          Accepts.unconfigured (unset t.deny_scopes (ground arith))
            (unset t.required_scopes (ground arith))
      | inr busy ↦ elim (read ctx) [
        | no_token sound gone e ↦ Accepts.anonymous (ground arith) sound gone
        | no_claims e strange failed ↦ absurd (ground arith)
        | claims c held e ↦ scope_claim-Accepts c held (ground arith)
      ]
    ]
  ]

  Accepts→validate_scopes : Accepts t ctx → validate_scopes t ctx ≡ none
  unfolding validate_scopes validate_scope_claim
  Accepts→validate_scopes (Accepts.disabled off) = ground arith
  Accepts→validate_scopes (Accepts.unconfigured deny required) = ground arith
  Accepts→validate_scopes (Accepts.anonymous lax sound gone) =
      ground (arith, read_no_token ctx sound gone)
  Accepts→validate_scopes (Accepts.service_account c held account lax) =
      ground (arith, read_claims ctx c held)
  Accepts→validate_scopes (Accepts.unscoped c held missing) = ground (arith, read_claims ctx c held)
  Accepts→validate_scopes (Accepts.conforming c s held found required denied) = ground (
    arith,
    read_claims ctx c held,
    (check_scopes-eq-none_iff t (split s b' ')).1 (required, denied),
  )

-- ValidateScopes returns nil exactly where validation is disabled, no scope is configured, the token
-- is missing and that is no error, the token is of a service account that is exempt, it has no scope
-- claim, or it has every required scope and no denied one.
pub validate_scopes-Accepts_iff :
    (t : Middleware) (ctx : Context) → (validate_scopes t ctx ≡ none) ↔ Accepts t ctx
validate_scopes-Accepts_iff t ctx = (validate_scopes-Accepts t ctx, Accepts→validate_scopes t ctx)

-- For a token that is not exempt, the result is decided by the required scopes that the token
-- lacks, and else by the denied scopes that it has, both in the order of the configuration.
validate_scopes_of_claims :
    (t : Middleware) (ctx : Context) (c : Claims) (s : String)
    → t.disable_all_validation ≡ false
    → Holds ctx c
    → (is_service_account c && not t.enforce_service_account_scopes) ≡ false
    → text_claim c claim_scope ≡ some s
    → validate_scopes t ctx
      ≡ verdict
          (keep (λ r. not (has r (split s b' '))) t.required_scopes)
          (keep (λ d. has d (split s b' ')) t.deny_scopes)
unfolding validate_scopes validate_scope_claim
validate_scopes_of_claims t ctx c s on held bound found =
    rw
      (
        ← missing_scopes-keep (split s b' ') t.required_scopes,
        ← denied_scopes-keep (split s b' ') t.deny_scopes,
        ← check_scopes_lem (split s b' ') t,
      )
      (elim (Bool-cases (not (is_set t.deny_scopes) && not (is_set t.required_scopes))) [
        | inl idle ↦ ground (
          arith,
          (check_scopes-eq-none_iff t (split s b' ')).1 (
            All-of_nil _ (unset t.required_scopes (ground arith)),
            All-of_nil _ (unset t.deny_scopes (ground arith)),
          ),
        )
        | inr busy ↦ ground (arith, read_claims ctx c held)
      ])
