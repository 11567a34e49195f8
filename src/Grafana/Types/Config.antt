-- ===== src/Grafana/Types/Config.antt =====
-- pkg/grafana/grafana_types.go: the structs of the configuration file.
-- A pointer is an Option; the constants are the zero values of the structs. A nil slice and an empty
-- one are not told apart.
use ocm_service_common.Common.{String, Bool, Option, List}
use ocm_service_common.Common.Int.{ℤ}
use ocm_service_common.Grafana.Types.Item.{Datasource, PanelItem}
use ocm_service_common.Grafana.Types.Dashboard.{
  Requires, AnnotationList, Template, Timepicker, Time,
}

pub record Exception : Type 0 where
  pub path : String
  pub method : String
  pub errors3 : Option String

pub record ConfigPanelItem : Type 0 where
  pub path : Option String
  pub type : Option String
  pub availability : Option String
  pub requests : Option String
  pub errors1 : Option String
  pub errors2 : Option String
  pub errors3 : Option String
  pub duration : Option String
  pub latency : Option String
  pub exception : Option Exception
  pub panels : Option (List PanelItem)

pub record GrafanaMetadataLabels : Type 0 where
  pub grafana_dashboard : String

pub record GrafanaMetadataAnnotations : Type 0 where
  pub grafana_folder : String

pub record GrafanaMetadata : Type 0 where
  pub name : String
  pub labels : Option GrafanaMetadataLabels
  pub annotations : Option GrafanaMetadataAnnotations

pub record GrafanaConfig : Type 0 where
  pub uid : Option String
  pub service : String
  pub skip_service_account : Option Bool
  pub title : Option String
  pub style : Option String
  pub schema_version : Option ℤ
  pub version : Option ℤ
  pub api_version : String
  pub timezone : Option String
  pub metadata : Option GrafanaMetadata

pub record Config : Type 0 where
  pub time : Option Time
  pub timepicker : Option Timepicker
  pub templating : Option Template
  pub annotations : Option AnnotationList
  pub panel_datasource : Option Datasource
  pub grafana : Option GrafanaConfig
  pub requires : Option (List Requires)
  pub panels : Option (List ConfigPanelItem)
