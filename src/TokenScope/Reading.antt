-- ===== src/TokenScope/Reading.antt =====
-- What a context can hold, and what tokenClaimsFromContext makes of it.
use ocm_service_common.Common.{
  ◌⊎◌, inl, inr, Bool, true, false, Option, none, some, ◌≡◌, refl, arith,
}
use ocm_service_common.Common.Result.{ok, err}
use ocm_service_common.Claims.{Claims}
use ocm_service_common.TokenScope.State.{
  Error, missing_token, invalid_token, cannot_convert_token, TokenClaims, map_claims, other_claims,
  Context, token_claims_from_context,
}

-- The context holds a token with these claims.
pub record Holds (ctx : Context) (c : Claims) : Type 0 where
  pub sound : ctx.failed ≡ false
  pub held : ctx.token ≡ some (map_claims c)

pub data Reading (ctx : Context) : Type 0 where
  no_token :
      ctx.failed ≡ false
      → ctx.token ≡ none
      → token_claims_from_context ctx ≡ err missing_token
      → Reading ctx
  no_claims :
      (e : Error)
      → (e ≡ invalid_token) ⊎ (e ≡ cannot_convert_token)
      → token_claims_from_context ctx ≡ err e
      → Reading ctx
  claims : (c : Claims) → Holds ctx c → token_claims_from_context ctx ≡ ok c → Reading ctx

read_parts :
    (ctx : Context) (failed : Bool) (token : Option TokenClaims)
    → ctx.failed ≡ failed
    → ctx.token ≡ token
    → Reading ctx
unfolding token_claims_from_context
read_parts ctx true token f t = Reading.no_claims invalid_token (inl refl) (ground arith)
read_parts ctx false none f t = Reading.no_token f t (ground arith)
read_parts ctx false (some other_claims) f t =
    Reading.no_claims cannot_convert_token (inr refl) (ground arith)
read_parts ctx false (some (map_claims c)) f t =
    Reading.claims c (record { sound = f; held = t }) (ground arith)

pub read : (ctx : Context) → Reading ctx
read ctx = read_parts ctx ctx.failed ctx.token refl refl

pub read_no_token :
    (ctx : Context)
    → ctx.failed ≡ false
    → ctx.token ≡ none
    → token_claims_from_context ctx ≡ err missing_token
unfolding token_claims_from_context
read_no_token ctx sound gone = ground arith

pub read_claims : (ctx : Context) (c : Claims) → Holds ctx c → token_claims_from_context ctx ≡ ok c
unfolding token_claims_from_context
read_claims ctx c h = ground arith
