-- ===== src/Grafana/Types/Item.antt =====
-- pkg/grafana/grafana_types.go: the structs of a panel's items. The identifiers that the generator counts are ℕ.
-- A pointer is an Option; the constants are the zero values of the structs. A nil slice and an empty
-- one are not told apart.
use ocm_service_common.Common.{ℕ, String, Bool, Option, none, List, []}
use ocm_service_common.Common.Int.{ℤ, pos}
use ocm_service_common.Grafana.Types.Axis.{
  Colors, YAxis, YAxe, XAxis, Tooltip, SeriesOverride, Legend,
}
use ocm_service_common.Grafana.Types.Field.{EmptyStruct, Threshold, FieldConfig}
use ocm_service_common.Grafana.Types.Options.{Options}

pub record GridPos : Type 0 where
  pub h : ℤ
  pub w : ℤ
  pub x : ℤ
  pub y : ℤ

abbrev pub empty_grid_pos : GridPos
empty_grid_pos = record { h = pos 0; w = pos 0; x = pos 0; y = pos 0 }

pub record Datasource : Type 0 where
  pub type : Option String
  pub uid : Option String

abbrev pub empty_datasource : Datasource
empty_datasource = record { type = none; uid = none }

pub record Target : Type 0 where
  pub expr : String
  pub format : Option String
  pub instant : Option Bool
  pub hide : Option Bool
  pub legend_format : Option String
  pub interval : Option String
  pub interval_factor : Option ℤ
  pub ref_id : String

abbrev pub empty_target : Target
empty_target = record {
  expr = "";
  format = none;
  instant = none;
  hide = none;
  legend_format = none;
  interval = none;
  interval_factor = none;
  ref_id = "";
}

pub record PanelItem : Type 0 where
  pub alias_colors : Option (List (String × String))
  pub bars : Option Bool
  pub dash_lengths : Option ℤ
  pub dashes : Option Bool
  pub fill : Option ℤ
  pub fill_gradient : Option ℤ
  pub hidden_series : Option Bool
  pub legend : Option Legend
  pub lines : Option Bool
  pub line_width : Option ℤ
  pub null_point_mode : Option String
  pub datasource : Option Datasource
  pub description : Option String
  pub field_config : Option FieldConfig
  pub grid_pos : GridPos
  pub id : ℕ
  pub links : Option (List String)
  pub max_data_points : Option ℤ
  pub options : Option Options
  pub plugin_version : Option String
  pub time_shift : Option String
  pub targets : List Target
  pub title : Option String
  pub type : Option String
  pub percentage : Option Bool
  pub hide_time_override : Option Bool
  pub point_radius : Option ℤ
  pub points : Option Bool
  pub renderer : Option String
  pub series_overrides : Option (List SeriesOverride)
  pub space_length : Option ℤ
  pub stack : Option Bool
  pub stepped_line : Option Bool
  pub transparent : Option Bool
  pub hide_zero_buckets : Option Bool
  pub highlight_cards : Option Bool
  pub reverse_buckets : Option Bool
  pub thresholds : Option (List Threshold)
  pub time_regions : Option (List EmptyStruct)
  pub tooltip : Option Tooltip
  pub x_axis : Option XAxis
  pub yaxes : Option (List YAxe)
  pub y_axis : Option YAxis
  pub color : Option Colors
  pub data_format : String
  pub y_bucket_bound : String

abbrev pub empty_panel_item : PanelItem
empty_panel_item = record {
  alias_colors = none;
  bars = none;
  dash_lengths = none;
  dashes = none;
  fill = none;
  fill_gradient = none;
  hidden_series = none;
  legend = none;
  lines = none;
  line_width = none;
  null_point_mode = none;
  datasource = none;
  description = none;
  field_config = none;
  grid_pos = empty_grid_pos;
  id = 0;
  links = none;
  max_data_points = none;
  options = none;
  plugin_version = none;
  time_shift = none;
  targets = [];
  title = none;
  type = none;
  percentage = none;
  hide_time_override = none;
  point_radius = none;
  points = none;
  renderer = none;
  series_overrides = none;
  space_length = none;
  stack = none;
  stepped_line = none;
  transparent = none;
  hide_zero_buckets = none;
  highlight_cards = none;
  reverse_buckets = none;
  thresholds = none;
  time_regions = none;
  tooltip = none;
  x_axis = none;
  yaxes = none;
  y_axis = none;
  color = none;
  data_format = "";
  y_bucket_bound = "";
}
