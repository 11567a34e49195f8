-- ===== src/Grafana/Types/Field.antt =====
-- pkg/grafana/grafana_types.go: the structs of a field's configuration. A float is its decimal text (the digits and how many of
-- them stand after the point), a value of type `any` is its JSON text.
-- A pointer is an Option; the constants are the zero values of the structs. A nil slice and an empty
-- one are not told apart.
use ocm_service_common.Common.{ℕ, String, Bool, false, Option, none, List}
use ocm_service_common.Common.Int.{ℤ, pos}

abbrev pub EmptyStruct : Type 0
EmptyStruct = Unit

abbrev pub Float32 : Type 0
Float32 = ℤ × ℕ

abbrev pub Any : Type 0
Any = String

pub record Step : Type 0 where
  pub color : Option String
  pub value : Option Float32

abbrev pub empty_step : Step
empty_step = record { color = none; value = none }

pub record Threshold : Type 0 where
  pub mode : Option String
  pub steps : Option (List Step)

abbrev pub empty_threshold : Threshold
empty_threshold = record { mode = none; steps = none }

pub record Color : Type 0 where
  pub mode : Option String

abbrev pub empty_color : Color
empty_color = record { mode = none }

pub record Result : Type 0 where
  pub text : Option String

abbrev pub empty_result : Result
empty_result = record { text = none }

pub record MappingOptions : Type 0 where
  pub match : Option String
  pub result : Option Result

abbrev pub empty_mapping_options : MappingOptions
empty_mapping_options = record { match = none; result = none }

pub record Mapping : Type 0 where
  pub options : Option MappingOptions
  pub type : Option String

abbrev pub empty_mapping : Mapping
empty_mapping = record { options = none; type = none }

pub record HideFrom : Type 0 where
  pub legend : Bool
  pub tooltip : Bool
  pub viz : Bool

abbrev pub empty_hide_from : HideFrom
empty_hide_from = record { legend = false; tooltip = false; viz = false }

pub record Stacking : Type 0 where
  pub group : String
  pub mode : String

abbrev pub empty_stacking : Stacking
empty_stacking = record { group = ""; mode = "" }

pub record ThresholdsStyle : Type 0 where
  pub mode : String

abbrev pub empty_thresholds_style : ThresholdsStyle
empty_thresholds_style = record { mode = "" }

pub record ScaleDistribution : Type 0 where
  pub type : String
  pub log : ℤ

abbrev pub empty_scale_distribution : ScaleDistribution
empty_scale_distribution = record { type = ""; log = pos 0 }

pub record Custom : Type 0 where
  pub filterable : Bool
  pub axis_border_show : Bool
  pub axis_centered_zero : Bool
  pub axis_color_mode : String
  pub axis_label : String
  pub axis_placement : String
  pub bar_alignment : ℤ
  pub draw_style : String
  pub fill_opacity : ℤ
  pub gradient_mode : String
  pub hide_from : HideFrom
  pub insert_nulls : Bool
  pub line_interpolation : String
  pub line_width : ℤ
  pub point_size : ℤ
  pub scale_distribution : Option ScaleDistribution
  pub show_points : String
  pub span_nulls : Bool
  pub stacking : Stacking
  pub thresholds_style : ThresholdsStyle

abbrev pub empty_custom : Custom
empty_custom = record {
  filterable = false;
  axis_border_show = false;
  axis_centered_zero = false;
  axis_color_mode = "";
  axis_label = "";
  axis_placement = "";
  bar_alignment = pos 0;
  draw_style = "";
  fill_opacity = pos 0;
  gradient_mode = "";
  hide_from = empty_hide_from;
  insert_nulls = false;
  line_interpolation = "";
  line_width = pos 0;
  point_size = pos 0;
  scale_distribution = none;
  show_points = "";
  span_nulls = false;
  stacking = empty_stacking;
  thresholds_style = empty_thresholds_style;
}

pub record Defaults : Type 0 where
  pub decimals : Option ℤ
  pub color : Option Color
  pub mappings : Option (List Mapping)
  pub thresholds : Option Threshold
  pub unit : Option String
  pub overrides : Option String
  pub custom : Option Custom

abbrev pub empty_defaults : Defaults
empty_defaults = record {
  decimals = none;
  color = none;
  mappings = none;
  thresholds = none;
  unit = none;
  overrides = none;
  custom = none;
}

pub record Matcher : Type 0 where
  pub id : String
  pub options : String

pub record Properties : Type 0 where
  pub id : String
  pub value : Any

pub record Overrides : Type 0 where
  pub matcher : Option Matcher
  pub properties : List (Option Properties)

pub record FieldConfig : Type 0 where
  pub defaults : Option Defaults
  pub overrides : Option (List Overrides)

abbrev pub empty_field_config : FieldConfig
empty_field_config = record { defaults = none; overrides = none }
