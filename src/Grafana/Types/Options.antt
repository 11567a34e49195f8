-- ===== src/Grafana/Types/Options.antt =====
-- pkg/grafana/grafana_types.go: the structs of an item's options.
-- A pointer is an Option; the constants are the zero values of the structs. A nil slice and an empty
-- one are not told apart.
use ocm_service_common.Common.{String, Bool, Option, none, List}
use ocm_service_common.Grafana.Types.Field.{Defaults, EmptyStruct}

pub record ReduceOptions : Type 0 where
  pub calcs : Option (List String)
  pub fields : Option String
  pub values : Option Bool

abbrev pub empty_reduce_options : ReduceOptions
empty_reduce_options = record { calcs = none; fields = none; values = none }

pub record FieldOptions : Type 0 where
  pub calcs : Option (List String)
  pub defaults : Option Defaults
  pub overrides : Option (List String)
  pub values : Option Bool

pub record TooltipOptions : Type 0 where
  pub mode : Option String
  pub sort : Option String

abbrev pub empty_tooltip_options : TooltipOptions
empty_tooltip_options = record { mode = none; sort = none }

pub record LegendOptions : Type 0 where
  pub calcs : Option (List String)
  pub display_mode : Option String
  pub placement : Option String
  pub show_legend : Option Bool

abbrev pub empty_legend_options : LegendOptions
empty_legend_options = record {
  calcs = none;
  display_mode = none;
  placement = none;
  show_legend = none;
}

pub record Options : Type 0 where
  pub color_mode : Option String
  pub graph_mode : Option String
  pub justify_mode : Option String
  pub orientation : Option String
  pub reduce_options : Option ReduceOptions
  pub field_options : Option FieldOptions
  pub text : Option EmptyStruct
  pub text_mode : Option String
  pub alert_threshold : Option Bool
  pub show_threshold_labels : Option Bool
  pub show_threshold_markers : Option Bool
  pub legend_options : Option LegendOptions
  pub tooltip_options : Option TooltipOptions

abbrev pub empty_options : Options
empty_options = record {
  color_mode = none;
  graph_mode = none;
  justify_mode = none;
  orientation = none;
  reduce_options = none;
  field_options = none;
  text = none;
  text_mode = none;
  alert_threshold = none;
  show_threshold_labels = none;
  show_threshold_markers = none;
  legend_options = none;
  tooltip_options = none;
}
