-- ===== src/Grafana/Output.antt =====
-- pkg/grafana/generate_grafana.go: `GenerateGrafana` after the configuration is loaded, `printGrafana`.
-- The clock and the two JSON encodings of the dashboard are parameters.
use ocm_service_common.Common.{String, Bool, true, false, some, List, [], ◌∷◌, if◌then◌else◌}
use ocm_service_common.Common.Int.{ℤ, pos}
use ocm_service_common.Common.Result.{Result}
use ocm_service_common.Common.Text.{concat}
use ocm_service_common.Grafana.Types.Config.{GrafanaConfig, Config}
use ocm_service_common.Grafana.Types.Dashboard.{empty_grafana, Panel, Grafana}
use ocm_service_common.Grafana.Generate.{start, panels_loop}
use ocm_service_common.Grafana.Outcome.{returns, dereference, exits, ◌>>=◌, Outcome}

-- The dashboard of the settings, with its panels.
unfoldable pub grafana_of : ℤ → Config → GrafanaConfig → List Panel → Grafana
grafana_of now config settings panels = record empty_grafana {
  id = some (pos 20883);
  uid = settings.uid;
  title = settings.title;
  style = settings.style;
  schema_version = settings.schema_version;
  version = settings.version;
  timezone = settings.timezone;
  editable = some true;
  graph_tooltip = some (pos 0);
  fiscal_year_start_month = some (pos 0);
  iteration = some now;
  live_now = some false;
  time = config.time;
  timepicker = config.timepicker;
  templating = config.templating;
  annotations = config.annotations;
  requires = config.requires;
  panels = panels;
}

module _ (marshal marshal_indent : Grafana → String) where
  -- The text that is written; a nil part of the metadata panics.
  unfoldable pub print_grafana : GrafanaConfig → Grafana → Bool → Outcome String
  print_grafana settings grafana openapi_panel_presents = do
    metadata ← dereference settings.metadata
    labels ← dereference metadata.labels
    annotations ← dereference metadata.annotations
    returns (
        concat (
          "apiVersion: "
          ∷ settings.api_version
          ∷ "\ndata:\n  "
          ∷ metadata.name
          ∷ ".json: |-\n    "
          ∷ (if openapi_panel_presents then marshal grafana else marshal_indent grafana)
          ∷ "\nkind: ConfigMap\nmetadata:\n  name: "
          ∷ metadata.name
          ∷ "\n  labels:\n    grafana_dashboard: \""
          ∷ labels.grafana_dashboard
          ∷ "\"\n  annotations:\n    grafana-folder: "
          ∷ annotations.grafana_folder
          ∷ "\n"
          ∷ []))

  module _ (sprintf : String → List String → String)
      (load : String → Result String (List String)) where
    -- `GenerateGrafana` from what `loadConfig` returns.
    unfoldable pub generate_grafana : ℤ → Result String Config → Outcome String
    unfolding panels_loop grafana_of print_grafana
    generate_grafana now (Result.err e) = exits e
    generate_grafana now (Result.ok config) = do
      settings ← dereference config.grafana
      items ← dereference config.panels
      g ←
          panels_loop sprintf config.panel_datasource settings.service settings.skip_service_account
            load items start
      print_grafana settings (grafana_of now config settings g.panels) g.openapi_panel_presents
