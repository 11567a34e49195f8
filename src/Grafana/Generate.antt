-- ===== src/Grafana/Generate.antt =====
-- pkg/grafana/generate_grafana.go: `GenerateGrafana` from a configuration that is loaded, `printGrafana`.
-- The OpenAPI library is a parameter: the paths of a valid document, in the order in which Go's map
-- yields them, or the error. The clock and the JSON encoding of the dashboard are parameters.
use ocm_service_common.Common.{
  str_eq, ℕ, zero, suc, String, Bool, true, false, Option, none, some, List, [], ◌∷◌, ◌++◌,
  if◌then◌else◌,
}
use ocm_service_common.Common.Int.{ℤ, pos, negsuc}
use ocm_service_common.Common.Result.{Result}
use ocm_service_common.Grafana.Types.Item.{Datasource}
use ocm_service_common.Grafana.Types.Config.{ConfigPanelItem}
use ocm_service_common.Grafana.Types.Dashboard.{Panel}
use ocm_service_common.Grafana.Expressions.{
  Expressions, prepare_expressions, update_grafana_service,
}
use ocm_service_common.Grafana.Outcome.{dereference, exits, ◌>>=◌, returns, Outcome}
use ocm_service_common.Grafana.Panels.{create_routes, create_regular, create_custom}
use ocm_service_common.Grafana.Replace.{normalize_path}
use ocm_service_common.Grafana.Sort.{sort_paths}

-- `rowNum++`.
abbrev pub increment : ℤ → ℤ
increment (pos n) = pos (suc n)
increment (negsuc zero) = pos 0
increment (negsuc (suc n)) = negsuc n

-- `skipSA`.
abbrev pub skips : Option Bool → Bool
skips none = false
skips (some b) = b

-- The variables of the loop over the panels of the configuration.
pub record Progress : Type 0 where
  pub row_num : ℤ
  pub panel_id : ℕ
  pub fld_id : ℕ
  pub openapi_panel_presents : Bool
  pub panels : List Panel

abbrev pub start : Progress
start = record {
  row_num = negsuc 0;
  panel_id = 0;
  fld_id = 1;
  openapi_panel_presents = false;
  panels = [];
}

-- `rowNum++`, `panelId++`, and the panel that is built with them.
unfoldable pub add_panel : (ℤ → ℕ → ℕ → ℕ × Panel) → Progress → Progress
add_panel create g =
    let built = create (increment g.row_num) (suc g.panel_id) g.fld_id in
    record g {
      row_num = increment g.row_num;
      panel_id = suc g.panel_id;
      fld_id = built.0;
      panels = g.panels ++ built.1 ∷ [];
    }

-- The expressions of a panel of five items.
unfoldable pub item_expressions : ConfigPanelItem → Outcome Expressions
item_expressions item = do
  availability ← dereference item.availability
  requests ← dereference item.requests
  errors1 ← dereference item.errors1
  errors2 ← dereference item.errors2
  duration ← dereference item.duration
  latency ← dereference item.latency
  returns record {
    availability = availability;
    requests = requests;
    errors1 = errors1;
    errors2 = errors2;
    errors3 = item.errors3;
    duration = duration;
    latency = latency;
  }

-- `logErrorAndExit` after the document is loaded and validated.
abbrev pub loaded : Result String (List String) → Outcome (List String)
loaded (Result.ok paths) = returns paths
loaded (Result.err e) = exits e

module _ (sprintf : String → List String → String) (datasource : Option Datasource)
    (service : String) (skip_service_account : Option Bool) where
  -- The case "5items".
  unfoldable pub five_items_step : ConfigPanelItem → Progress → Outcome Progress
  unfolding update_grafana_service item_expressions create_regular add_panel
  five_items_step item g = do
    updated ← update_grafana_service item service
    source ← dereference datasource
    title ← dereference updated.path
    e ← item_expressions updated
    returns (
        add_panel (λ row_num panel_id fld_id. create_regular source title row_num panel_id fld_id e)
          g)

  -- The case "routes".
  unfoldable pub routes_step : ConfigPanelItem → Progress → Outcome Progress
  unfolding prepare_expressions create_routes add_panel
  routes_step item g = do
    exception ← dereference item.exception
    e ← prepare_expressions sprintf service false "$route" exception
    source ← dereference datasource
    title ← dereference item.path
    returns (
        add_panel (λ row_num panel_id fld_id. create_routes source title row_num panel_id fld_id e)
          g)

  -- One pass of the loop over the paths.
  unfoldable pub path_step : ConfigPanelItem → String → Progress → Outcome Progress
  unfolding prepare_expressions create_regular normalize_path add_panel
  path_step item path g = do
    exception ← dereference item.exception
    e ←
        prepare_expressions sprintf service (skips skip_service_account) (normalize_path path)
          exception
    source ← dereference datasource
    returns (
        add_panel (λ row_num panel_id fld_id. create_regular source path row_num panel_id fld_id e)
          g)

  unfoldable pub paths_loop : ConfigPanelItem → List String → Progress → Outcome Progress
  unfolding path_step
  paths_loop item [] g = returns g
  paths_loop item (path ∷ paths) g = path_step item path g >>= paths_loop item paths

  -- The case "custom": the panel is built before the numbers are counted up.
  unfoldable pub custom_step : ConfigPanelItem → Progress → Outcome Progress
  unfolding create_custom
  custom_step item g = do
    title ← dereference item.path
    source ← dereference datasource
    items ← dereference item.panels
    built ← create_custom title source items g.row_num g.panel_id g.fld_id service
    returns (record g {
      row_num = increment g.row_num;
      panel_id = suc g.panel_id;
      fld_id = built.0;
      panels = g.panels ++ built.1 ∷ [];
    })

  module _ (load : String → Result String (List String)) where
    -- The case "openapi".
    unfoldable pub openapi_step : ConfigPanelItem → Progress → Outcome Progress
    unfolding paths_loop sort_paths
    openapi_step item g = do
      path ← dereference item.path
      paths ← loaded (load path)
      paths_loop item (sort_paths paths) (record g { openapi_panel_presents = true })

    -- One pass of the loop over the panels; another type is passed over.
    unfoldable pub panel_step : ConfigPanelItem → Progress → Outcome Progress
    unfolding five_items_step routes_step openapi_step custom_step
    panel_step item g = do
      type ← dereference item.type
      if str_eq type "5items"
          then five_items_step item g
          else if str_eq type "routes"
          then routes_step item g
          else if str_eq type "openapi"
          then openapi_step item g
          else if str_eq type "custom"
          then custom_step item g
          else returns g

    unfoldable pub panels_loop : List ConfigPanelItem → Progress → Outcome Progress
    unfolding panel_step
    panels_loop [] g = returns g
    panels_loop (item ∷ items) g = panel_step item g >>= panels_loop items
