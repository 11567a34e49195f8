-- ===== src/Metrics/Register.antt =====
-- pkg/client/metrics_middleware.go: `RegisterClientMetrics`. The registry of Prometheus is a parameter.
use ocm_service_common.Common.{String, Option, none, some}
use ocm_service_common.Common.Result.{Run, returns, panics}

-- The answer of `prometheus.Register`: an existing collector is `none` if it is of another type.
pub data Registration (C : Type 0) : Type 0 where
  registered : Registration C
  already_registered : Option C → Registration C
  refused : String → Registration C

-- One of the two metrics: the error, and the collector that is used from now on.
abbrev pub register_metric : {C : Type 0} → Registration C → C → Run (Option String × C)
register_metric registered metric = returns (none, metric)
register_metric (already_registered none) metric = panics
register_metric (already_registered (some existing)) metric = returns (none, existing)
register_metric (refused e) metric = returns (some e, metric)

-- What follows the count metric: an error ends the registration.
abbrev pub register_duration :
    {C D : Type 0}
    → Run (Option String × C)
    → Run (Option String × D)
    → D
    → Run (Option String × C × D)
register_duration panics second duration = panics
register_duration (returns (some e, count)) second duration = returns (some e, count, duration)
register_duration (returns (none, count)) panics duration = panics
register_duration (returns (none, count)) (returns (e, used)) duration = returns (e, count, used)

unfoldable pub register_client_metrics :
    {C D : Type 0}
    → (C → Registration C)
    → (D → Registration D)
    → C
    → D
    → Run (Option String × C × D)
register_client_metrics register_count register_duration_metric count duration =
    register_duration (register_metric (register_count count) count)
      (register_metric (register_duration_metric duration) duration) duration
