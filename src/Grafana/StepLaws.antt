-- ===== src/Grafana/StepLaws.antt =====
-- What the passes of the loop keep.
use ocm_service_common.Common.{
  eq_iff, ap, ◌∙◌, All, false, some, ℕ, String, Bool, true, Option, List, [], ◌∷◌, ◌≡◌, refl, inl,
  inr, Bool-cases, str_eq,
}
use ocm_service_common.Common.Int.{ℤ}
use ocm_service_common.Common.Result.{Result}
use ocm_service_common.Grafana.Types.Dashboard.{Panel}
use ocm_service_common.Grafana.Panels.{create_routes, create_regular}
use ocm_service_common.Grafana.Types.Item.{Datasource}
use ocm_service_common.Grafana.Expressions.{
  prepare_expressions, update_grafana_service, Expressions,
}
use ocm_service_common.Grafana.PanelLaws.{create_regular-Numbered, create_routes-Numbered, Numbered}
use ocm_service_common.Grafana.Generate.{
  skips, panel_step, loaded, panels_loop, item_expressions, custom_step, paths_loop, routes_step,
  path_step, five_items_step, openapi_step, add_panel, Progress,
}
use ocm_service_common.Grafana.Types.Config.{ConfigPanelItem}
use ocm_service_common.Grafana.Outcome.{
  dereference-Holds, dereference, Holds-then, Holds-bind, Holds,
}
use ocm_service_common.Grafana.Sort.{sort_paths}
use ocm_service_common.Grafana.Replace.{normalize_path}

-- A panel is built with the numbers that it is given, and its items are numbered.
abbrev pub IsProper : (ℤ → ℕ → ℕ → ℕ × Panel) → Type 0
IsProper create =
    (row_num : ℤ) (panel_id fld_id : ℕ)
    → Numbered fld_id (create row_num panel_id fld_id)
      × ((create row_num panel_id fld_id).1.id ≡ panel_id)
      × ((create row_num panel_id fld_id).1.grid_pos.y ≡ row_num)

create_regular-IsProper :
    (datasource : Datasource) (title : String) (e : Expressions)
    → IsProper
        (λ row_num panel_id fld_id. create_regular datasource title row_num panel_id fld_id e)
unfolding create_regular
create_regular-IsProper datasource title e row_num panel_id fld_id =
    (create_regular-Numbered datasource title row_num panel_id fld_id e, refl, refl)

create_routes-IsProper :
    (datasource : Datasource) (title : String) (e : Expressions)
    → IsProper (λ row_num panel_id fld_id. create_routes datasource title row_num panel_id fld_id e)
unfolding create_routes
create_routes-IsProper datasource title e row_num panel_id fld_id =
    (create_routes-Numbered datasource title row_num panel_id fld_id e, refl, refl)

module _ (sprintf : String → List String → String) (load : String → Result String (List String))
    (datasource : Option Datasource) (service : String) (skip_service_account : Option Bool)
    (P : Progress → Type 0)
    (added : (create : ℤ → ℕ → ℕ → ℕ × Panel) (g : Progress)
      → IsProper create
      → P g
      → P (add_panel create g))
    (flagged : (g : Progress) → P g → P (record g { openapi_panel_presents = true })) where
  five_items_step-keeps :
      (item : ConfigPanelItem) (g : Progress)
      → P g
      → Holds P (five_items_step sprintf datasource service skip_service_account item g)
  unfolding five_items_step
  five_items_step-keeps item g h = Holds-then P (update_grafana_service item service) _ (λ updated.
      Holds-then P (dereference datasource) _ (λ source.
        Holds-then P (dereference updated.path) _ (λ title.
          Holds-then P (item_expressions updated) _ (λ e.
            added (λ r p f. create_regular source title r p f e) g
              (create_regular-IsProper source title e) h))))

  routes_step-keeps :
      (item : ConfigPanelItem) (g : Progress)
      → P g
      → Holds P (routes_step sprintf datasource service skip_service_account item g)
  unfolding routes_step
  routes_step-keeps item g h = Holds-then P (dereference item.exception) _ (λ exception.
      Holds-then P (prepare_expressions sprintf service false "$route" exception) _ (λ e.
        Holds-then P (dereference datasource) _ (λ source.
          Holds-then P (dereference item.path) _ (λ title.
            added (λ r p f. create_routes source title r p f e) g
              (create_routes-IsProper source title e) h))))

  path_step-keeps :
      (item : ConfigPanelItem) (path : String) (g : Progress)
      → P g
      → Holds P (path_step sprintf datasource service skip_service_account item path g)
  unfolding path_step
  path_step-keeps item path g h = Holds-then P (dereference item.exception) _ (λ exception.
      Holds-then P
        (prepare_expressions sprintf service (skips skip_service_account) (normalize_path path)
          exception)
        _
        (λ e. Holds-then P (dereference datasource) _ (λ source.
          added (λ r p f. create_regular source path r p f e) g
            (create_regular-IsProper source path e) h)))

  paths_loop-keeps :
      (item : ConfigPanelItem) (paths : List String) (g : Progress)
      → P g
      → Holds P (paths_loop sprintf datasource service skip_service_account item paths g)
  unfolding paths_loop
  paths_loop-keeps item [] g h = h
  paths_loop-keeps item (path ∷ paths) g h =
      Holds-bind P (path_step sprintf datasource service skip_service_account item path g) _
        (path_step-keeps item path g h) (paths_loop-keeps item paths)

  openapi_step-keeps :
      (item : ConfigPanelItem) (g : Progress)
      → P g
      → Holds P (openapi_step sprintf datasource service skip_service_account load item g)
  unfolding openapi_step
  openapi_step-keeps item g h = Holds-then P (dereference item.path) _ (λ path.
      Holds-then P (loaded (load path)) _ (λ paths.
        paths_loop-keeps item (sort_paths paths) (record g { openapi_panel_presents = true })
          (flagged g h)))

  panel_step-keeps :
      (item : ConfigPanelItem) (g : Progress)
      → (item.type ≡ some "custom"
          → Holds P (custom_step sprintf datasource service skip_service_account item g))
      → P g
      → Holds P (panel_step sprintf datasource service skip_service_account load item g)
  unfolding panel_step
  panel_step-keeps item g custom h =
      Holds-bind P (dereference item.type) _ (dereference-Holds item.type) (λ type known.
        elim (Bool-cases (str_eq type "5items")) [
          | inl e ↦ rw e (five_items_step-keeps item g h)
          | inr e ↦ rw e (elim (Bool-cases (str_eq type "routes")) [
            | inl e ↦ rw e (routes_step-keeps item g h)
            | inr e ↦ rw e (elim (Bool-cases (str_eq type "openapi")) [
              | inl e ↦ rw e (openapi_step-keeps item g h)
              | inr e ↦ rw e (elim (Bool-cases (str_eq type "custom")) [
                | inl e ↦ rw e (custom (known ∙ ap some ((eq_iff type "custom").0 e)))
                | inr e ↦ rw e h
              ])
            ])
          ])
        ])

  -- The loop keeps what the custom panels of the list keep.
  pub panels_loop-keeps :
      (items : List ConfigPanelItem) (g : Progress)
      → All
          (λ item.
            (g' : Progress)
            → item.type ≡ some "custom"
            → P g'
            → Holds P (custom_step sprintf datasource service skip_service_account item g'))
          items
      → P g
      → Holds P (panels_loop sprintf datasource service skip_service_account load items g)
  unfolding panels_loop
  panels_loop-keeps [] g custom h = h
  panels_loop-keeps (item ∷ items) g custom h =
      Holds-bind P (panel_step sprintf datasource service skip_service_account load item g) _
        (panel_step-keeps item g (λ e. custom.0 g e h) h)
        (λ g' h'. panels_loop-keeps items g' custom.1 h')
