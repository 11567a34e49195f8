-- ===== src/Grafana/Types/Dashboard.antt =====
-- pkg/grafana/grafana_types.go: the structs of the dashboard. The identifiers of panels are ℕ.
-- A pointer is an Option; the constants are the zero values of the structs. A nil slice and an empty
-- one are not told apart.
use ocm_service_common.Common.{ℕ, String, Bool, false, Option, none, List, []}
use ocm_service_common.Common.Int.{ℤ}
use ocm_service_common.Grafana.Types.Item.{
  empty_datasource, PanelItem, Datasource, empty_grid_pos, GridPos,
}

pub record Requires : Type 0 where
  pub id : Option String
  pub type : Option String
  pub name : Option String
  pub version : Option String

pub record Time : Type 0 where
  pub from : Option String
  pub to : Option String

pub record Timepicker : Type 0 where
  pub refresh_intervals : Option (List String)
  pub time_options : Option (List String)

pub record TextValue : Type 0 where
  pub selected : Option Bool
  pub text : Option String
  pub value : Option String

pub record Query : Type 0 where
  pub query : Option String
  pub ref_id : Option String

pub record ListItem : Type 0 where
  pub all_value : Option String
  pub data_source : Option Datasource
  pub definition : Option String
  pub label : Option String
  pub current : Option TextValue
  pub hide : Option ℤ
  pub include_all : Option Bool
  pub multi : Option Bool
  pub name : Option String
  pub options : Option (List TextValue)
  pub query : Option Query
  pub refresh : Option ℤ
  pub regex : Option String
  pub skip_url_sync : Option Bool
  pub type : Option String
  pub sort : Option ℤ
  pub tag_values_query : Option String
  pub tags_query : Option String
  pub use_tags : Option Bool

pub record Template : Type 0 where
  pub list : Option (List ListItem)

pub record AnnotationTarget : Type 0 where
  pub limit : Option ℤ
  pub match_any : Option Bool
  pub tags : Option (List String)
  pub type : Option String

pub record AnnotationItem : Type 0 where
  pub built_in : Option ℤ
  pub datasource : Option Datasource
  pub enable : Option Bool
  pub hide : Option Bool
  pub icon_color : Option String
  pub name : Option String
  pub target : Option AnnotationTarget
  pub type : Option String

pub record AnnotationList : Type 0 where
  pub list : Option (List AnnotationItem)

pub record Panel : Type 0 where
  pub type : String
  pub title : String
  pub repeat : String
  pub repeat_direction : String
  pub grid_pos : GridPos
  pub id : ℕ
  pub collapsed : Bool
  pub datasource : Datasource
  pub panels : List PanelItem

abbrev pub empty_panel : Panel
empty_panel = record {
  type = "";
  title = "";
  repeat = "";
  repeat_direction = "";
  grid_pos = empty_grid_pos;
  id = 0;
  collapsed = false;
  datasource = empty_datasource;
  panels = [];
}

pub record Grafana : Type 0 where
  pub uid : Option String
  pub title : Option String
  pub style : Option String
  pub schema_version : Option ℤ
  pub version : Option ℤ
  pub id : Option ℤ
  pub tags : Option (List String)
  pub timezone : Option String
  pub editable : Option Bool
  pub graph_tooltip : Option ℤ
  pub links : Option (List String)
  pub fiscal_year_start_month : Option ℤ
  pub iteration : Option ℤ
  pub live_now : Option Bool
  pub week_start : Option String
  pub time : Option Time
  pub timepicker : Option Timepicker
  pub templating : Option Template
  pub annotations : Option AnnotationList
  pub requires : Option (List Requires)
  pub panels : List Panel

abbrev pub empty_grafana : Grafana
empty_grafana = record {
  uid = none;
  title = none;
  style = none;
  schema_version = none;
  version = none;
  id = none;
  tags = none;
  timezone = none;
  editable = none;
  graph_tooltip = none;
  links = none;
  fiscal_year_start_month = none;
  iteration = none;
  live_now = none;
  week_start = none;
  time = none;
  timepicker = none;
  templating = none;
  annotations = none;
  requires = none;
  panels = [];
}
