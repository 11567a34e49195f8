-- ===== src/Grafana/Items/RoutesSeries.antt =====
-- pkg/grafana/generate_grafana.go: the three items of a series of `createRoutes`.
use ocm_service_common.Common.{ℕ, ◌+◌, String, true, false, some, [], ◌∷◌}
use ocm_service_common.Common.Int.{pos}
use ocm_service_common.Grafana.Types.Item.{
  empty_target, empty_grid_pos, empty_datasource, empty_panel_item, PanelItem,
}
use ocm_service_common.Grafana.Types.Axis.{
  empty_y_axis, empty_y_axe, empty_x_axis, empty_tooltip, empty_legend,
}
use ocm_service_common.Grafana.Types.Options.{empty_options}

abbrev pub routes_requests : ℕ → String → PanelItem
routes_requests fld_id expr_requests = record empty_panel_item {
  bars = some false;
  dash_lengths = some (pos 10);
  dashes = some false;
  datasource = some (record empty_datasource { uid = some "$datasource" });
  description = some "Number of requests per second by response codes.";
  fill = some (pos 1);
  fill_gradient = some (pos 0);
  grid_pos = record empty_grid_pos { h = pos 8; w = pos 7; x = pos 3; y = pos 1 };
  hidden_series = some false;
  id = fld_id + 1;
  legend = some (record empty_legend {
    avg = some false;
    current = some false;
    max = some false;
    min = some false;
    show = some true;
    total = some false;
    values = some false;
  });
  lines = some true;
  line_width = some (pos 1);
  null_point_mode = some "null as zero";
  options = some (record empty_options { alert_threshold = some true });
  percentage = some false;
  plugin_version = some "8.5.2";
  point_radius = some (pos 5);
  points = some false;
  renderer = some "flot";
  space_length = some (pos 10);
  stack = some false;
  stepped_line = some false;
  targets =
      ((record empty_target {
        expr = expr_requests;
        legend_format = some "{{code}} - {{method}} - {{deployment_ring}}";
        ref_id = "A";
      })
        ∷ []);
  title = some "Requests";
  tooltip = some (record empty_tooltip {
    shared = some true;
    sort = some (pos 0);
    value_type = some "individual";
  });
  type = some "graph";
  x_axis = some (record empty_x_axis { mode = some "time"; show = some true; values = some [] });
  yaxes = some (
      (record empty_y_axe { format = some "reqps"; log_base = some (pos 1); show = some true })
      ∷ (record empty_y_axe { format = some "short"; log_base = some (pos 1); show = some true })
      ∷ []);
  y_axis = some (record empty_y_axis { align = some false });
}

abbrev pub routes_errors : ℕ → String → String → PanelItem
routes_errors fld_id expr_errors1 expr_errors2 = record empty_panel_item {
  bars = some false;
  dash_lengths = some (pos 10);
  dashes = some false;
  datasource = some (record empty_datasource { uid = some "$datasource" });
  description = some "The error percentage.";
  fill = some (pos 0);
  fill_gradient = some (pos 0);
  grid_pos = record empty_grid_pos { h = pos 8; w = pos 7; x = pos 10; y = pos 1 };
  hidden_series = some false;
  id = fld_id + 2;
  legend = some (record empty_legend {
    avg = some false;
    current = some false;
    max = some false;
    min = some false;
    show = some true;
    total = some false;
    values = some false;
  });
  lines = some true;
  line_width = some (pos 1);
  null_point_mode = some "null as zero";
  options = some (record empty_options { alert_threshold = some true });
  percentage = some false;
  plugin_version = some "8.5.2";
  point_radius = some (pos 5);
  points = some false;
  renderer = some "flot";
  space_length = some (pos 10);
  stack = some false;
  stepped_line = some false;
  targets =
      ((record empty_target {
        expr = expr_errors1;
        legend_format = some "non-2xx - {{deployment_ring}}";
        ref_id = "C";
      })
        ∷ (record empty_target {
          expr = expr_errors2;
          legend_format = some "non-2xx and non-404 - {{deployment_ring}}";
          ref_id = "A";
        })
        ∷ []);
  title = some "Errors";
  tooltip = some (record empty_tooltip {
    shared = some true;
    sort = some (pos 0);
    value_type = some "individual";
  });
  type = some "graph";
  x_axis = some (record empty_x_axis { mode = some "time"; show = some true; values = some [] });
  yaxes = some (
      (record empty_y_axe {
        format = some "percentunit";
        log_base = some (pos 1);
        min = some "0";
        show = some true;
      })
      ∷ (record empty_y_axe { format = some "short"; log_base = some (pos 1); show = some true })
      ∷ []);
  y_axis = some (record empty_y_axis { align = some false });
}

abbrev pub routes_duration : ℕ → String → PanelItem
routes_duration fld_id expr_duration = record empty_panel_item {
  bars = some false;
  dash_lengths = some (pos 10);
  dashes = some false;
  datasource = some (record empty_datasource { uid = some "$datasource" });
  description =
      some "The request duration within which the API have served 99%, 95%, 50% of requests";
  grid_pos = record empty_grid_pos { h = pos 8; w = pos 7; x = pos 17; y = pos 1 };
  hidden_series = some false;
  id = fld_id + 3;
  legend = some (record empty_legend {
    avg = some false;
    current = some false;
    max = some false;
    min = some false;
    show = some true;
    total = some false;
    values = some false;
  });
  lines = some true;
  line_width = some (pos 1);
  null_point_mode = some "null as zero";
  options = some (record empty_options { alert_threshold = some true });
  percentage = some false;
  plugin_version = some "8.5.1";
  point_radius = some (pos 5);
  points = some false;
  renderer = some "flot";
  space_length = some (pos 10);
  stack = some false;
  stepped_line = some false;
  targets =
      ((record empty_target {
        expr = expr_duration;
        interval = some "";
        legend_format = some "Avg. response duration (1m) - {{deployment_ring}}";
        ref_id = "A";
      })
        ∷ []);
  title = some "Duration";
  tooltip = some (record empty_tooltip {
    shared = some true;
    sort = some (pos 0);
    value_type = some "individual";
  });
  type = some "graph";
  x_axis = some (record empty_x_axis { mode = some "time"; show = some true; values = some [] });
  yaxes = some (
      (record empty_y_axe { format = some "s"; log_base = some (pos 10); show = some true })
      ∷ (record empty_y_axe { format = some "short"; log_base = some (pos 1); show = some true })
      ∷ []);
  y_axis = some (record empty_y_axis { align = some false });
}
