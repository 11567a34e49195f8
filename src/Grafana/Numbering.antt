-- ===== src/Grafana/Numbering.antt =====
-- The numbers in a generated dashboard: of all items, and of the panels.
use mathlib.Core.Path.{ap₂}
use ocm_service_common.Common.{
  ◌∙◌, arith, ℕ, suc, ◌+◌, String, Bool, Option, some, List, [], ◌∷◌, ◌++◌, ◌≡◌, ◌≢◌, refl, map,
  length, length-append, sym, ap, All,
}
use ocm_service_common.Common.Int.{ℤ, pos}
use ocm_service_common.Common.Result.{Result}
use ocm_service_common.Grafana.Types.Item.{PanelItem, Datasource}
use ocm_service_common.Grafana.Generate.{
  start, panels_loop, custom_step, increment, Progress, add_panel,
}
use ocm_service_common.Grafana.PanelLaws.{upto}
use ocm_service_common.Grafana.Types.Dashboard.{Panel}
use ocm_service_common.Grafana.StepLaws.{panels_loop-keeps, IsProper}
use ocm_service_common.Grafana.Types.Config.{ConfigPanelItem}
use ocm_service_common.Grafana.ItemIds.{
  append_panel-IsNumbered, create_custom-Numbered, upto-append, IsNumbered,
}
use ocm_service_common.Grafana.Outcome.{Holds-bind, dereference, Holds-then, Holds}
use ocm_service_common.Grafana.Panels.{custom_items, create_custom}

abbrev pub panel_ids : List Panel → List ℕ
panel_ids panels = map (λ panel. panel.id) panels

abbrev pub rows : List Panel → List ℤ
rows panels = map (λ panel. panel.grid_pos.y) panels

-- The panels are numbered from 1 on and stand in the rows from 0 on, and the numbers are the last ones.
abbrev pub IsCounted : Progress → Type 0
IsCounted g =
    (panel_ids g.panels ≡ upto 1 (length g.panels))
    × (rows g.panels ≡ map pos (upto 0 (length g.panels)))
    × (g.panel_id ≡ length g.panels)
    × (increment g.row_num ≡ pos (length g.panels))

map-append {ℓ κ} :
    {A : Type ℓ} {B : Type κ} (f : A → B) (xs ys : List A) → map f (xs ++ ys) ≡ map f xs ++ map f ys
map-append f [] ys = refl
map-append f (x ∷ xs) ys = ap (λ zs. f x ∷ zs) (map-append f xs ys)

-- The next number stands last.
upto-last : (first n : ℕ) → upto first n ++ (first + n) ∷ [] ≡ upto first (suc n)
upto-last first n =
    let shift : n + 1 ≡ suc n = ground arith in upto-append first n 1 ∙ ap (upto first) shift

upto-last_one : (n : ℕ) → upto 1 n ++ suc n ∷ [] ≡ upto 1 (suc n)
upto-last_one n =
    let shift : suc n ≡ 1 + n = ground arith in ap (λ m. upto 1 n ++ m ∷ []) shift ∙ upto-last 1 n

upto-last_zero : (n : ℕ) → upto 0 n ++ n ∷ [] ≡ upto 0 (suc n)
upto-last_zero n =
    let shift : n ≡ 0 + n = ground arith in ap (λ m. upto 0 n ++ m ∷ []) shift ∙ upto-last 0 n

last-length : (ps : List Panel) (p : Panel) → length (ps ++ p ∷ []) ≡ suc (length ps)
last-length ps p = length-append ps (p ∷ []) ∙ ground arith

add_panel-IsCounted :
    (create : ℤ → ℕ → ℕ → ℕ × Panel) (g : Progress)
    → IsProper create
    → IsCounted g
    → IsCounted (add_panel create g)
unfolding add_panel
add_panel-IsCounted create g proper (ids, places, count, row) =
    let (numbered, id, place) = proper (increment g.row_num) (suc g.panel_id) g.fld_id in
    let n = length g.panels in
    let panel = (create (increment g.row_num) (suc g.panel_id) g.fld_id).1 in
    let more = last-length g.panels panel in
    (
      map-append (λ p. p.id) g.panels (panel ∷ [])
          ∙ (ap₂ (λ xs x. xs ++ x ∷ []) ids (id ∙ ap suc count)
              ∙ (upto-last_one n ∙ ap (upto 1) (sym more))),
      map-append (λ p. p.grid_pos.y) g.panels (panel ∷ [])
          ∙ (ap₂ (λ xs x. xs ++ x ∷ []) places (place ∙ row)
              ∙ (sym (map-append pos (upto 0 n) (n ∷ []))
                  ∙ ap (map pos) (upto-last_zero n ∙ ap (upto 0) (sym more)))),
      ap suc count ∙ sym more,
      ap increment row ∙ ap pos (sym more),
    )

add_panel-IsNumbered :
    (create : ℤ → ℕ → ℕ → ℕ × Panel) (g : Progress)
    → IsProper create
    → IsNumbered g
    → IsNumbered (add_panel create g)
unfolding add_panel
add_panel-IsNumbered create g proper h =
    append_panel-IsNumbered g (create (increment g.row_num) (suc g.panel_id) g.fld_id)
      (increment g.row_num) (suc g.panel_id) h
      (proper (increment g.row_num) (suc g.panel_id) g.fld_id).0

module _ (sprintf : String → List String → String) (load : String → Result String (List String))
    (datasource : Option Datasource) (service : String) (skip_service_account : Option Bool) where
  custom_step-IsNumbered :
      (item : ConfigPanelItem) (g : Progress)
      → IsNumbered g
      → Holds IsNumbered (custom_step sprintf datasource service skip_service_account item g)
  unfolding custom_step
  custom_step-IsNumbered item g h = Holds-then IsNumbered (dereference item.path) _ (λ title.
      Holds-then IsNumbered (dereference datasource) _ (λ source.
        Holds-then IsNumbered (dereference item.panels) _ (λ items.
          Holds-bind IsNumbered
            (create_custom title source items g.row_num g.panel_id g.fld_id service) _
            (create_custom-Numbered title source items g.row_num g.panel_id g.fld_id service)
            (λ built numbered.
              append_panel-IsNumbered g built (increment g.row_num) (suc g.panel_id) h numbered))))

  each_custom-IsNumbered :
      (items : List ConfigPanelItem)
      → All
          (λ item.
            (g : Progress)
            → item.type ≡ some "custom"
            → IsNumbered g
            → Holds IsNumbered (custom_step sprintf datasource service skip_service_account item g))
          items
  each_custom-IsNumbered [] = tt
  each_custom-IsNumbered (item ∷ items) =
      (λ g custom h. custom_step-IsNumbered item g h, each_custom-IsNumbered items)

  -- Whatever panels the configuration lists, custom ones included: if the loop comes to its end, the
  -- identifiers of all items of the dashboard, in their order, are 1, 2, 3 and so on.
  pub panels_loop-IsNumbered :
      (items : List ConfigPanelItem)
      → Holds IsNumbered
          (panels_loop sprintf datasource service skip_service_account load items start)
  panels_loop-IsNumbered items =
      panels_loop-keeps sprintf load datasource service skip_service_account IsNumbered
        add_panel-IsNumbered (λ g h. h) items start (each_custom-IsNumbered items) (refl, refl)

  no_custom-IsCounted :
      (items : List ConfigPanelItem)
      → All (λ item. item.type ≢ some "custom") items
      → All
          (λ item.
            (g : Progress)
            → item.type ≡ some "custom"
            → IsCounted g
            → Holds IsCounted (custom_step sprintf datasource service skip_service_account item g))
          items
  no_custom-IsCounted [] h = tt
  no_custom-IsCounted (item ∷ items) h =
      (λ g custom k. absurd (h.0 custom), no_custom-IsCounted items h.1)

  -- If the configuration lists no custom panel and the loop comes to its end, the identifiers of the
  -- panels are 1, 2, 3 and so on, and their rows are 0, 1, 2 and so on.
  pub panels_loop-IsCounted :
      (items : List ConfigPanelItem)
      → All (λ item. item.type ≢ some "custom") items
      → Holds IsCounted
          (panels_loop sprintf datasource service skip_service_account load items start)
  panels_loop-IsCounted items h =
      panels_loop-keeps sprintf load datasource service skip_service_account IsCounted
        add_panel-IsCounted (λ g k. k) items start (no_custom-IsCounted items h)
        (refl, refl, refl, refl)

  create_custom-id :
      (title : String) (source : Datasource) (items : List PanelItem) (row_num : ℤ)
      (panel_id fld_id : ℕ)
      → Holds
          (λ built. built.1.id ≡ panel_id)
          (create_custom title source items row_num panel_id fld_id service)
  unfolding create_custom
  create_custom-id title source items row_num panel_id fld_id =
      Holds-then _ (custom_items service fld_id items) _ (λ numbered. refl)

  -- A custom panel that follows panels with the identifiers 1, 2 and so on up to n gets the identifier
  -- n again, if its step comes to its end.
  pub custom_step_repeats :
      (item : ConfigPanelItem) (g : Progress)
      → IsCounted g
      → Holds
          (λ g'. panel_ids g'.panels ≡ upto 1 (length g.panels) ++ length g.panels ∷ [])
          (custom_step sprintf datasource service skip_service_account item g)
  unfolding custom_step
  custom_step_repeats item g (ids, places, count, row) =
      Holds-then _ (dereference item.path) _ (λ title.
        Holds-then _ (dereference datasource) _ (λ source.
          Holds-then _ (dereference item.panels) _ (λ items.
            Holds-bind _ (create_custom title source items g.row_num g.panel_id g.fld_id service) _
              (create_custom-id title source items g.row_num g.panel_id g.fld_id)
              (λ built e.
                map-append (λ p. p.id) g.panels (built.1 ∷ [])
                ∙ ap₂ (λ xs x. xs ++ x ∷ []) ids (e ∙ count)))))
