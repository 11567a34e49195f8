-- ===== src/Deprecation/Handler.antt =====
-- pkg/middleware/deprecation.go and pkg/error/errors.go: the handler. The error body that the
-- configured factory builds is represented by the message that the factory is given.
use ocm_service_common.Common.{
  ℕ, String, Bool, Option, none, some, List, [], ◌∷◌, ◌++◌, ltb, if◌then◌else◌,
}
use ocm_service_common.Deprecation.Match.{match_deprecated_endpoint, Endpoints, DeprecatedEndpoint}

pub record MiddlewareConfig : Type 0 where
  pub endpoints : Endpoints
  pub enable_field_deprecation : Bool

-- What the handler does, in order: an error, a header, and the next handler, with the writer and
-- the context that collect field deprecations or without them.
pub data Effect : Type 0 where
  send_error : String → Effect
  set_header : String → String → Effect
  serve_next : (with_field_deprecations : Bool) → Effect

-- `now.After(date)`.
abbrev pub after : ℕ → ℕ → Bool
after now date = ltb date now

-- Whether the endpoint that was found is past its sunset date.
unfoldable pub expired : ℕ → Option DeprecatedEndpoint → Option String
expired now none = none
expired now (some endpoint) = if after now endpoint.sunset_date then some endpoint.message else none

-- The constants of package `consts` of ocm-common, and `Time.Format` at RFC 3339.
module _ (deprecation_header ocm_deprecation_message : String) (format_rfc3339 : ℕ → String) where
  unfoldable pub deprecation_headers : Option DeprecatedEndpoint → List Effect
  deprecation_headers none = []
  deprecation_headers (some endpoint) =
      set_header deprecation_header (format_rfc3339 endpoint.sunset_date)
      ∷ set_header ocm_deprecation_message endpoint.message
      ∷ []

  -- The handler at a time, for a request path; `order` is the map's order of iteration.
  unfoldable pub deprecation_handler : MiddlewareConfig → Endpoints → ℕ → String → List Effect
  unfolding deprecation_headers expired
  deprecation_handler cfg order now path =
      let found = match_deprecated_endpoint path cfg.endpoints order in
      elim (expired now found) [
        | some message ↦ send_error message ∷ []
        | none ↦ deprecation_headers found ++ serve_next cfg.enable_field_deprecation ∷ []
      ]
