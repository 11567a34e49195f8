-- ===== src/Grafana/Items/RegularSeries.antt =====
-- pkg/grafana/generate_grafana.go: the three items of a series of `createRegular`.
use ocm_service_common.Common.{ℕ, ◌+◌, String, true, some, [], ◌∷◌}
use ocm_service_common.Common.Int.{pos}
use ocm_service_common.Grafana.Types.Item.{
  empty_target, empty_grid_pos, empty_datasource, empty_panel_item, PanelItem,
}
use ocm_service_common.Grafana.Types.Field.{
  empty_scale_distribution, empty_custom, empty_defaults, empty_field_config,
}
use ocm_service_common.Grafana.Types.Options.{
  empty_tooltip_options, empty_legend_options, empty_options,
}

abbrev pub regular_requests : ℕ → String → PanelItem
regular_requests fld_id expr_requests = record empty_panel_item {
  datasource = some (record empty_datasource { uid = some "$datasource" });
  description = some "Number of requests per second by response codes.";
  field_config = some (record empty_field_config {
    defaults = some (record empty_defaults {
      custom = some (record empty_custom {
        line_width = pos 1;
        point_size = pos 5;
        fill_opacity = pos 10;
        scale_distribution = some (record empty_scale_distribution { type = "linear" });
        show_points = "never";
      });
      unit = some "reqps";
    });
    overrides = some [];
  });
  grid_pos = record empty_grid_pos { h = pos 8; w = pos 7; x = pos 3; y = pos 1 };
  id = fld_id + 1;
  options = some (record empty_options {
    legend_options = some (record empty_legend_options {
      calcs = some [];
      display_mode = some "list";
      placement = some "bottom";
      show_legend = some true;
    });
    tooltip_options =
        some (record empty_tooltip_options { mode = some "multi"; sort = some "none" });
  });
  plugin_version = some "10.4.1";
  targets =
      ((record empty_target {
        expr = expr_requests;
        legend_format = some "{{code}} - {{method}} - {{deployment_ring}}";
        ref_id = "A";
      })
        ∷ []);
  title = some "Requests";
  type = some "timeseries";
}

abbrev pub regular_errors : ℕ → String → String → PanelItem
regular_errors fld_id expr_errors1 expr_errors2 = record empty_panel_item {
  datasource = some (record empty_datasource { uid = some "$datasource" });
  description = some "The error percentage.";
  field_config = some (record empty_field_config {
    defaults = some (record empty_defaults {
      custom = some (record empty_custom {
        line_width = pos 1;
        point_size = pos 5;
        scale_distribution = some (record empty_scale_distribution { type = "linear" });
        show_points = "never";
      });
      unit = some "percentunit";
    });
    overrides = some [];
  });
  grid_pos = record empty_grid_pos { h = pos 8; w = pos 7; x = pos 10; y = pos 1 };
  id = fld_id + 2;
  options = some (record empty_options {
    legend_options = some (record empty_legend_options {
      calcs = some [];
      display_mode = some "list";
      placement = some "bottom";
      show_legend = some true;
    });
    tooltip_options =
        some (record empty_tooltip_options { mode = some "multi"; sort = some "none" });
  });
  plugin_version = some "10.4.1";
  targets =
      ((record empty_target {
        expr = expr_errors1;
        legend_format = some "non-2xx - {{deployment_ring}}";
        ref_id = "C";
      })
        ∷ (record empty_target {
          expr = expr_errors2;
          legend_format = some "non-2xx and non-404 - {{deployment_ring}}";
          ref_id = "A";
        })
        ∷ []);
  title = some "Errors";
  type = some "timeseries";
}

abbrev pub regular_duration : ℕ → String → PanelItem
regular_duration fld_id expr_duration = record empty_panel_item {
  datasource = some (record empty_datasource { uid = some "$datasource" });
  description =
      some "The request duration within which the API have served 99%, 95%, 50% of requests";
  field_config = some (record empty_field_config {
    defaults = some (record empty_defaults {
      custom = some (record empty_custom {
        line_width = pos 1;
        point_size = pos 5;
        fill_opacity = pos 10;
        scale_distribution = some (record empty_scale_distribution { type = "log"; log = pos 10 });
        show_points = "never";
      });
      unit = some "s";
    });
    overrides = some [];
  });
  grid_pos = record empty_grid_pos { h = pos 8; w = pos 7; x = pos 17; y = pos 1 };
  id = fld_id + 3;
  options = some (record empty_options {
    legend_options = some (record empty_legend_options {
      calcs = some [];
      display_mode = some "list";
      placement = some "bottom";
      show_legend = some true;
    });
    tooltip_options =
        some (record empty_tooltip_options { mode = some "multi"; sort = some "none" });
  });
  plugin_version = some "10.4.1";
  targets =
      ((record empty_target {
        expr = expr_duration;
        interval = some "";
        legend_format = some "Avg. response duration (1m) - {{deployment_ring}}";
        ref_id = "A";
      })
        ∷ []);
  title = some "Duration";
  type = some "timeseries";
}
