-- ===== src/Deprecation/HandlerLaws.antt =====
-- The deprecation handler: when the next handler runs, and what the response carries.
use ocm_service_common.Common.{
  ltb→lt, Bool-cases, inr, inl, Option-cases, subst, All-In, Any, ℕ, String, Bool, none, some, List,
  [], ◌∷◌, ◌++◌, ◌≡◌, ◌≢◌, ◌↔◌, refl, arith, ltb, ◌<◌, In,
}
use ocm_service_common.Deprecation.Handler.{
  expired, deprecation_headers, send_error, deprecation_handler, MiddlewareConfig,
}
use ocm_service_common.Deprecation.Match.{match_deprecated_endpoint, DeprecatedEndpoint, Endpoints}
use ocm_service_common.Deprecation.Handler.{serve_next}
use ocm_service_common.Deprecation.Handler.{Effect}

serve_last : (b : Bool) (before : List Effect) → In (serve_next b) (before ++ serve_next b ∷ [])
serve_last b [] = Any.here refl
serve_last b (f ∷ fs) = Any.there (serve_last b fs)

module _ (deprecation_header ocm_deprecation_message : String) (format_rfc3339 : ℕ → String)
    (cfg : MiddlewareConfig) (order : Endpoints) (now : ℕ) (path : String) where
  -- The path is that of an endpoint past its sunset date.
  abbrev pub IsGone : DeprecatedEndpoint → Type 0
  IsGone endpoint =
      (match_deprecated_endpoint path cfg.endpoints order ≡ some endpoint)
      × (endpoint.sunset_date < now)

  -- A path past its sunset date is answered with the error that carries the endpoint's message,
  -- and with nothing else: the next handler does not run.
  deprecation_handler-IsGone :
      (endpoint : DeprecatedEndpoint)
      → IsGone endpoint
      → deprecation_handler deprecation_header ocm_deprecation_message format_rfc3339 cfg order now
          path
        ≡ send_error endpoint.message ∷ []
  unfolding deprecation_handler
  deprecation_handler-IsGone endpoint gone = ground (arith, gone.0, gone.1)

  handler_lives :
      expired now (match_deprecated_endpoint path cfg.endpoints order) ≡ none
      → deprecation_handler deprecation_header ocm_deprecation_message format_rfc3339 cfg order now
          path
        ≡ deprecation_headers deprecation_header ocm_deprecation_message format_rfc3339
            (match_deprecated_endpoint path cfg.endpoints order)
          ++ serve_next cfg.enable_field_deprecation ∷ []
  unfolding deprecation_handler
  handler_lives h = ground arith

  -- The next handler runs, with the configured field deprecations, exactly where no endpoint past
  -- its sunset date is found.
  pub deprecation_handler-serves_iff :
      In (serve_next cfg.enable_field_deprecation) (
        deprecation_handler deprecation_header ocm_deprecation_message format_rfc3339 cfg order now
          path)
      ↔ ((endpoint : DeprecatedEndpoint) → ¬ (IsGone endpoint))
  unfolding expired
  deprecation_handler-serves_iff = (
    λ i endpoint gone.
        All-In (λ f. serve_next cfg.enable_field_deprecation ≢ f)
          {xs = send_error endpoint.message ∷ []} ((cc), tt)
          (subst (In (serve_next cfg.enable_field_deprecation))
            (deprecation_handler-IsGone endpoint gone) i)
          refl,
    λ live. elim (Option-cases (match_deprecated_endpoint path cfg.endpoints order)) [
      | inl missing ↦ rw (handler_lives (ground arith)) (serve_last cfg.enable_field_deprecation _)
      | inr (endpoint, found) ↦ elim (Bool-cases (ltb endpoint.sunset_date now)) [
        | inl past ↦ absurd (live endpoint (found, ltb→lt _ _ past))
        | inr still ↦ rw (handler_lives (ground arith)) (serve_last cfg.enable_field_deprecation _)
      ]
    ],
  )
