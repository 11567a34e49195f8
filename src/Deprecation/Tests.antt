-- ===== src/Deprecation/Tests.antt =====
-- Runs of the deprecation middleware, and its theorems at concrete inputs.
use ocm_service_common.Common.{
  In-swap, In, ℕ, String, true, false, none, some, [], ◌∷◌, ◌≡◌, ◌↔◌, refl, arith,
}
use ocm_service_common.Deprecation.Handler.{
  deprecation_handler, MiddlewareConfig, serve_next, set_header,
}
use ocm_service_common.Deprecation.Match.{
  path_parts, match_deprecated_endpoint, matches_pattern, DeprecatedEndpoint, Endpoints,
}
use ocm_service_common.Deprecation.MatchLaws.{
  matches_pattern-MatchesParts_iff, match_deprecated_endpoint-order, MatchesParts, SameEntries,
}
use ocm_service_common.Deprecation.HandlerLaws.{deprecation_handler-serves_iff, IsGone}

abbrev old : DeprecatedEndpoint
old = record { message = "use v2"; sunset_date = 100 }

abbrev table : Endpoints
table = ("/api/v1/clusters/{id}", old) ∷ ("/api/v1/{kind}/all", old) ∷ []

abbrev config : MiddlewareConfig
config = record { endpoints = table; enable_field_deprecation = false }

abbrev date : ℕ → String
date n = "date"

deprecation_runs : Unit {0}
unfolding match_deprecated_endpoint deprecation_handler
deprecation_runs = tt

matched : match_deprecated_endpoint "/api/v1/clusters/7/" table table ≡ some old
unfolding deprecation_runs
matched = refl

handler_run :
    deprecation_handler "Deprecation" "Message" date config table 50 "/api/v1/clusters/7"
    ≡ set_header "Deprecation" "date" ∷ set_header "Message" "use v2" ∷ serve_next false ∷ []
unfolding deprecation_runs
handler_run = refl

reordered : SameEntries table (("/api/v1/{kind}/all", old) ∷ ("/api/v1/clusters/{id}", old) ∷ [])
reordered = record { to = In-swap; from = In-swap }

matches_pattern-MatchesParts_iff_example :
    (matches_pattern "/a/b" "/a/{x}" ≡ true)
    ↔ MatchesParts (path_parts "/a/b") (path_parts "/a/{x}")
matches_pattern-MatchesParts_iff_example = matches_pattern-MatchesParts_iff "/a/b" "/a/{x}"

match_deprecated_endpoint-order_example : (match_deprecated_endpoint "/x" table table ≡ none) ↔ (
    match_deprecated_endpoint "/x" table
      (("/api/v1/{kind}/all", old) ∷ ("/api/v1/clusters/{id}", old) ∷ [])
    ≡ none)
match_deprecated_endpoint-order_example =
    match_deprecated_endpoint-order "/x" table table
      (("/api/v1/{kind}/all", old) ∷ ("/api/v1/clusters/{id}", old) ∷ []) reordered

gone : IsGone "Deprecation" "Message" date config table 200 "/api/v1/clusters/7" old
unfolding deprecation_runs
gone = (refl, omega arith)

deprecation_handler-serves_iff_example :
    In
      (serve_next false)
      (deprecation_handler "Deprecation" "Message" date config table 50 "/api/v1/clusters/7")
    ↔ ((endpoint : DeprecatedEndpoint)
        → ¬ (IsGone "Deprecation" "Message" date config table 50 "/api/v1/clusters/7" endpoint))
deprecation_handler-serves_iff_example =
    deprecation_handler-serves_iff "Deprecation" "Message" date config table 50 "/api/v1/clusters/7"
