-- ===== src/Grafana/Complete.antt =====
-- A configuration that is complete gives a dashboard.
use ocm_service_common.Common.{
  ap, String, Bool, true, Option, some, List, [], ◌∷◌, ◌≡◌, refl, subst, is_some, All,
}
use ocm_service_common.Common.Result.{Result, ok}
use ocm_service_common.Grafana.Outcome.{dereference, Holds, returns}
use ocm_service_common.Grafana.Types.Item.{PanelItem, Datasource}
use ocm_service_common.Grafana.Types.Config.{ConfigPanelItem}
use ocm_service_common.Grafana.Generate.{start, Progress, panels_loop, panel_step, openapi_step}
use ocm_service_common.Grafana.Totality.{
  Returns-known, custom_step-Returns, routes_step-Returns, five_items_step-Returns,
  paths_loop-Returns, Returns-bind, Returns, HasException, HasExpressions,
}
use ocm_service_common.Grafana.ItemIds.{IsNumbered}
use ocm_service_common.Grafana.Sort.{sort_paths}
use ocm_service_common.Grafana.Numbering.{panels_loop-IsNumbered}

-- A panel of the configuration has what its type asks for.
pub data IsComplete (load : String → Result String (List String)) (item : ConfigPanelItem)
    : Type 0 where
  has_items :
      item.type ≡ some "5items"
      → is_some item.path ≡ true
      → HasExpressions item
      → IsComplete load item
  has_routes :
      item.type ≡ some "routes"
      → is_some item.path ≡ true
      → HasException item
      → IsComplete load item
  has_document :
      (path : String) (paths : List String)
      → item.type ≡ some "openapi"
      → item.path ≡ some path
      → load path ≡ ok paths
      → HasException item
      → IsComplete load item
  has_customs :
      (items : List PanelItem)
      → item.type ≡ some "custom"
      → is_some item.path ≡ true
      → item.panels ≡ some items
      → All (λ x. is_some x.type ≡ true) items
      → IsComplete load item

module _ (sprintf : String → List String → String) (load : String → Result String (List String))
    (source : Datasource) (service : String) (skip_service_account : Option Bool) where
  openapi_step-Returns :
      (item : ConfigPanelItem) (g : Progress) (path : String) (paths : List String)
      → item.path ≡ some path
      → load path ≡ ok paths
      → HasException item
      → Returns (openapi_step sprintf (some source) service skip_service_account load item g)
  unfolding openapi_step
  openapi_step-Returns item g path paths same answer h = rw same (
      rw answer (
        paths_loop-Returns sprintf source service skip_service_account item (sort_paths paths)
          (record g { openapi_panel_presents = true }) h))

  panel_step-Returns :
      (item : ConfigPanelItem) (g : Progress)
      → IsComplete load item
      → Returns (panel_step sprintf (some source) service skip_service_account load item g)
  unfolding panel_step
  panel_step-Returns item g (has_items type path h) =
      Returns-known (dereference item.type) _ "5items" (ap dereference type)
        (five_items_step-Returns sprintf source service skip_service_account item g path h)
  panel_step-Returns item g (has_routes type path h) =
      Returns-known (dereference item.type) _ "routes" (ap dereference type)
        (routes_step-Returns sprintf source service skip_service_account item g path h)
  panel_step-Returns item g (has_document path paths type same answer h) =
      Returns-known (dereference item.type) _ "openapi" (ap dereference type)
        (openapi_step-Returns item g path paths same answer h)
  panel_step-Returns item g (has_customs items type path same h) =
      Returns-known (dereference item.type) _ "custom" (ap dereference type)
        (custom_step-Returns sprintf source service skip_service_account item g items path same h)

  panels_loop-Returns :
      (items : List ConfigPanelItem) (g : Progress)
      → All (IsComplete load) items
      → Returns (panels_loop sprintf (some source) service skip_service_account load items g)
  unfolding panels_loop
  panels_loop-Returns [] g h = (g, refl)
  panels_loop-Returns (item ∷ items) g h =
      Returns-bind (panel_step sprintf (some source) service skip_service_account load item g) _
        (panel_step-Returns item g h.0) (λ g' e. panels_loop-Returns items g' h.1)

  -- If each panel of the configuration has what its type asks for, and there is a data source, the loop
  -- comes to its end without a panic and without an exit, and all items are numbered from 1 on.
  pub panels_loop_complete :
      (items : List ConfigPanelItem)
      → All (IsComplete load) items
      → (g : Progress) × (panels_loop sprintf
            (some source)
            service
            skip_service_account
            load
            items
            start
          ≡ returns g)
        × IsNumbered g
  panels_loop_complete items h =
      let (g, e) = panels_loop-Returns items start h in
      (
        g,
        e,
        subst (Holds IsNumbered) e
            (panels_loop-IsNumbered sprintf load (some source) service skip_service_account items),
      )
