-- ===== src/Grafana/PathOrder.antt =====
-- The order in which Go's map yields the paths of a document.
use mathlib.Core.List.{Perm}
use mathlib.Core.Path.{fun_ext}
use ocm_service_common.Grafana.Outcome.{dereference, returns, exits, panics}
use ocm_service_common.Common.{true, String, Bool, Option, List, [], ◌∷◌, ◌≡◌, refl, sym, ap, ◌∙◌}
use ocm_service_common.Common.Result.{Result}
use ocm_service_common.Grafana.Types.Item.{Datasource}
use ocm_service_common.Grafana.Generate.{
  panels_loop, Progress, panel_step, openapi_step, paths_loop, loaded,
}
use ocm_service_common.Grafana.Outcome.{exits, returns, ◌>>=◌, Outcome}
use ocm_service_common.Grafana.Sort.{sort_paths}
use ocm_service_common.Grafana.SortLaws.{sort_paths-Perm}
use ocm_service_common.Grafana.Types.Config.{ConfigPanelItem}

-- Two answers of the OpenAPI library that differ only in the order of the paths.
abbrev pub SameUpToOrder : Result String (List String) → Result String (List String) → Type 0
SameUpToOrder (Result.ok ps) (Result.ok qs) = Perm ps qs
SameUpToOrder (Result.err e) (Result.err f) = e ≡ f
SameUpToOrder _ _ = ⊥

sorted : List String → Outcome (List String)
sorted paths = returns (sort_paths paths)

loaded-sorted :
    (r s : Result String (List String))
    → SameUpToOrder r s
    → (loaded r >>= sorted) ≡ (loaded s >>= sorted)
unfolding sorted
loaded-sorted (Result.ok ps) (Result.ok qs) h = ap returns (sort_paths-Perm ps qs h)
loaded-sorted (Result.err e) (Result.err f) h = ap exits h
loaded-sorted (Result.ok ps) (Result.err f) h = elim h [ ]
loaded-sorted (Result.err e) (Result.ok qs) h = elim h [ ]

bind_sorted :
    {A : Type 0} (m : Outcome (List String)) (f : List String → Outcome A)
    → (m >>= (λ paths. f (sort_paths paths))) ≡ ((m >>= sorted) >>= f)
unfolding sorted
bind_sorted (returns a) f = refl
bind_sorted (exits e) f = refl
bind_sorted panics f = refl

module _ (sprintf : String → List String → String)
    (load other : String → Result String (List String))
    (same : (path : String) → SameUpToOrder (load path) (other path))
    (datasource : Option Datasource) (service : String) (skip_service_account : Option Bool) where
  openapi_step-other :
      (item : ConfigPanelItem) (g : Progress)
      → openapi_step sprintf datasource service skip_service_account load item g
        ≡ openapi_step sprintf datasource service skip_service_account other item g
  unfolding openapi_step
  openapi_step-other item g =
      ap (λ f. dereference item.path >>= f)
        (fun_ext (λ path.
          bind_sorted (loaded (load path)) run
          ∙ (ap (λ m. m >>= run) (loaded-sorted (load path) (other path) (same path))
              ∙ sym (bind_sorted (loaded (other path)) run))))
    where
      run : List String → Outcome Progress
      run paths =
          paths_loop sprintf datasource service skip_service_account item paths
            (record g { openapi_panel_presents = true })

  panel_step-other :
      (item : ConfigPanelItem) (g : Progress)
      → panel_step sprintf datasource service skip_service_account load item g
        ≡ panel_step sprintf datasource service skip_service_account other item g
  unfolding panel_step
  panel_step-other item g = rw (openapi_step-other item g) refl

  -- The panels do not depend on the order in which Go's map yields the paths of a document.
  pub panels_loop_order :
      (items : List ConfigPanelItem) (g : Progress)
      → panels_loop sprintf datasource service skip_service_account load items g
        ≡ panels_loop sprintf datasource service skip_service_account other items g
  unfolding panels_loop
  panels_loop_order [] g = refl
  panels_loop_order (item ∷ items) g =
      ap (λ m. m >>= panels_loop sprintf datasource service skip_service_account load items)
        (panel_step-other item g)
      ∙ ap (λ f. panel_step sprintf datasource service skip_service_account other item g >>= f)
          (fun_ext (panels_loop_order items))
