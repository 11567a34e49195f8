-- ===== src/Grafana/ReplaceLaws.antt =====
-- The replaced texts: the path of a route, against the replacement of the metrics middleware.
use Prim.Native.String.{String, [], ◌∷◌, ◌++◌}
use ocm_service_common.Common.{refl, ℕ, Option, none, some, if◌then◌else◌, ◌≡◌, sym, arith}
use ocm_service_common.Common.Result.{ok}
use ocm_service_common.Metrics.{matched, reduce_path, round_trip_labels}
use ocm_service_common.Common.Text.{NoChar}
use ocm_service_common.Grafana.Replace.{in_match, closes, newline, normalize_path}
use ocm_service_common.Metrics.Template.{after_brace, replace_vars}

both_replaced :
    (s : String)
    → NoChar newline s
    → (normalize_path s ≡ replace_vars s)
      × (after_brace s ≡ (if closes s then some ("-" ++ in_match s) else none))
unfolding normalize_path replace_vars closes
both_replaced [] h = (refl, refl)
both_replaced (c ∷ s) h =
    let (outside, inside) = both_replaced s h.1 in
    let no_newline = h.0 in (ground (arith, outside, inside), ground (arith, outside, inside))

-- A request that matches a route whose template has no newline is counted under the path that the
-- generator makes of that template, whatever the request is.
pub round_trip_labels-normalize_path :
    (template service name method url_path : String) (status : Option ℕ)
    → NoChar newline template
    → (round_trip_labels service (some (matched (ok template) name)) method url_path status).path
      ≡ normalize_path template
unfolding round_trip_labels reduce_path
round_trip_labels-normalize_path template service name method url_path status plain =
    sym (both_replaced template plain).0
