-- ===== src/Grafana/Items/RegularStats.antt =====
-- pkg/grafana/generate_grafana.go: the two items of a single value of `createRegular`.
use ocm_service_common.Common.{ℕ, ◌+◌, String, true, false, none, some, [], ◌∷◌}
use ocm_service_common.Common.Int.{pos}
use ocm_service_common.Grafana.Types.Item.{
  empty_target, empty_grid_pos, empty_datasource, empty_panel_item, PanelItem,
}
use ocm_service_common.Grafana.Types.Field.{
  empty_step, empty_threshold, empty_result, empty_mapping_options, empty_mapping, empty_color,
  empty_defaults, empty_field_config,
}
use ocm_service_common.Grafana.Types.Options.{empty_reduce_options, empty_options}

abbrev pub regular_availability : ℕ → String → PanelItem
regular_availability fld_id expr_availability = record empty_panel_item {
  datasource = some (record empty_datasource { uid = some "$datasource" });
  description =
      some
        "The percentage of time that the API is available (not returning 500 Internal Service Errors).";
  grid_pos = record empty_grid_pos { h = pos 4; w = pos 3; x = pos 0; y = pos 1 };
  field_config = some (record empty_field_config {
    defaults = some (record empty_defaults {
      color = some (record empty_color { mode = some "thresholds" });
      mappings = some (
          (record empty_mapping {
            options = some (record empty_mapping_options {
              match = some "null";
              result = some (record empty_result { text = some "N/A" });
            });
            type = some "special";
          })
          ∷ []);
      thresholds = some (record empty_threshold {
        mode = some "absolute";
        steps = some (
            (record empty_step { color = some "#d44a3a"; value = some (pos 0, 0) })
            ∷ (record empty_step {
              color = some "rgba(237, 129, 40, 0.89)";
              value = some (pos 99, 2);
            })
            ∷ (record empty_step { color = some "#299c46"; value = some (pos 995, 3) })
            ∷ []);
      });
      unit = some "percentunit";
      overrides = none;
    });
    overrides = some [];
  });
  id = fld_id;
  max_data_points = some (pos 100);
  options = some (record empty_options {
    color_mode = some "value";
    graph_mode = some "none";
    justify_mode = some "auto";
    orientation = some "horizontal";
    reduce_options = some (record empty_reduce_options { calcs = some ("lastNotNull" ∷ []) });
    text_mode = some "auto";
  });
  plugin_version = some "8.5.2";
  targets =
      ((record empty_target {
        expr = expr_availability;
        format = some "time_series";
        instant = some true;
        ref_id = "A";
      })
        ∷ []);
  title = some "Availability (selected time) ";
  type = some "stat";
}

abbrev pub regular_latency : ℕ → String → PanelItem
regular_latency fld_id expr_latency = record empty_panel_item {
  datasource = some (record empty_datasource { uid = some "$datasource" });
  description = some "The percentage of time that the API responds within 1 second.";
  field_config = some (record empty_field_config {
    defaults = some (record empty_defaults {
      color = some (record empty_color { mode = some "thresholds" });
      mappings = some (
          (record empty_mapping {
            options = some (record empty_mapping_options {
              match = some "null";
              result = some (record empty_result { text = some "N/A" });
            });
            type = some "special";
          })
          ∷ []);
      thresholds = some (record empty_threshold {
        mode = some "absolute";
        steps = some (
            (record empty_step { color = some "#d44a3a" })
            ∷ (record empty_step {
              color = some "rgba(237, 129, 40, 0.89)";
              value = some (pos 99, 2);
            })
            ∷ (record empty_step { color = some "#299c46"; value = some (pos 995, 3) })
            ∷ []);
      });
      unit = some "percentunit";
    });
  });
  grid_pos = record empty_grid_pos { h = pos 4; w = pos 3; x = pos 0; y = pos 5 };
  id = fld_id + 4;
  max_data_points = some (pos 100);
  options = some (record empty_options {
    color_mode = some "value";
    graph_mode = some "none";
    justify_mode = some "auto";
    orientation = some "horizontal";
    reduce_options = some (record empty_reduce_options {
      calcs = some ("lastNotNull" ∷ []);
      fields = some "";
      values = some false;
    });
    text_mode = some "auto";
  });
  plugin_version = some "8.5.2";
  targets =
      ((record empty_target {
        expr = expr_latency;
        format = some "time_series";
        instant = some true;
        ref_id = "A";
      })
        ∷ []);
  title = some "Latency (< 1s) ";
  type = some "stat";
}
