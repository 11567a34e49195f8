-- ===== src/Grafana/Types/Axis.antt =====
-- pkg/grafana/grafana_types.go: the structs of legends and axes.
-- A pointer is an Option; the constants are the zero values of the structs. A nil slice and an empty
-- one are not told apart.
use ocm_service_common.Common.{String, Bool, Option, none, List}
use ocm_service_common.Common.Int.{ℤ}
use ocm_service_common.Grafana.Types.Field.{Float32}

pub record Legend : Type 0 where
  pub align_as_table : Option Bool
  pub avg : Option Bool
  pub current : Option Bool
  pub hide_zero : Option Bool
  pub max : Option Bool
  pub min : Option Bool
  pub right_side : Option Bool
  pub show : Option Bool
  pub total : Option Bool
  pub values : Option Bool

abbrev pub empty_legend : Legend
empty_legend = record {
  align_as_table = none;
  avg = none;
  current = none;
  hide_zero = none;
  max = none;
  min = none;
  right_side = none;
  show = none;
  total = none;
  values = none;
}

pub record Tooltip : Type 0 where
  pub shared : Option Bool
  pub sort : Option ℤ
  pub value_type : Option String
  pub show_histogram : Option Bool

abbrev pub empty_tooltip : Tooltip
empty_tooltip = record { shared = none; sort = none; value_type = none; show_histogram = none }

pub record XAxis : Type 0 where
  pub mode : Option String
  pub show : Option Bool
  pub values : Option (List String)

abbrev pub empty_x_axis : XAxis
empty_x_axis = record { mode = none; show = none; values = none }

pub record YAxe : Type 0 where
  pub decimals : Option ℤ
  pub format : Option String
  pub label : Option String
  pub log_base : Option ℤ
  pub min : Option String
  pub show : Option Bool

abbrev pub empty_y_axe : YAxe
empty_y_axe = record {
  decimals = none;
  format = none;
  label = none;
  log_base = none;
  min = none;
  show = none;
}

pub record YAxis : Type 0 where
  pub align : Option Bool
  pub log_base : Option ℤ
  pub format : Option String

abbrev pub empty_y_axis : YAxis
empty_y_axis = record { align = none; log_base = none; format = none }

pub record SeriesOverride : Type 0 where
  pub alias : Option String
  pub color : Option String
  pub line_width : Option ℤ
  pub dash_length : Option ℤ
  pub dash : Option ℤ
  pub dashes : Option Bool
  pub space_length : Option ℤ
  pub yaxis : Option ℤ

pub record Colors : Type 0 where
  pub card_color : Option String
  pub color_scale : Option String
  pub color_scheme : Option String
  pub exponent : Option Float32
  pub mode : Option String
