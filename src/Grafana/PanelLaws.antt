-- ===== src/Grafana/PanelLaws.antt =====
-- The identifiers and the places of a panel's items.
use ocm_service_common.Common.{
  arith, sym, all, ◌&&◌, ◌||◌, leb, ℕ, zero, suc, ◌+◌, String, Bool, true, false, Option, none,
  some, List, [], ◌∷◌, ◌≡◌, refl, map, length,
}
use ocm_service_common.Common.Int.{ℤ, pos}
use ocm_service_common.Grafana.Panels.{create_routes, with_errors3, create_regular}
use ocm_service_common.Grafana.Types.Dashboard.{Panel}
use ocm_service_common.Grafana.Types.Item.{GridPos, Datasource, PanelItem}
use ocm_service_common.Grafana.Expressions.{Expressions}
use ocm_service_common.Grafana.Items.RegularSeries.{regular_errors}
use ocm_service_common.Grafana.Items.RoutesSeries.{routes_errors}

-- The numbers from a first one on.
abbrev pub upto : ℕ → ℕ → List ℕ
upto first zero = []
upto first (suc n) = first ∷ upto (suc first) n

abbrev pub item_ids : List PanelItem → List ℕ
item_ids items = map (λ item. item.id) items

-- The identifiers of the panel's items are the ones from `fld_id` on, up to the one that is returned.
abbrev pub Numbered : ℕ → ℕ × Panel → Type 0
Numbered fld_id (next, panel) =
    (item_ids panel.panels ≡ upto fld_id (length panel.panels))
    × (next ≡ fld_id + length panel.panels)

with_errors3-id : (o : Option String) (item : PanelItem) → (with_errors3 o item).id ≡ item.id
unfolding with_errors3
with_errors3-id none item = refl
with_errors3-id (some e) item = refl

with_errors3-place :
    (o : Option String) (item : PanelItem) → (with_errors3 o item).grid_pos ≡ item.grid_pos
unfolding with_errors3
with_errors3-place none item = refl
with_errors3-place (some e) item = refl

five-upto : (n : ℕ) → upto n 5 ≡ n ∷ (n + 1) ∷ (n + 2) ∷ (n + 3) ∷ (n + 4) ∷ []
five-upto n = ground arith

pub create_regular-Numbered :
    (datasource : Datasource) (title : String) (row_num : ℤ) (panel_id fld_id : ℕ) (e : Expressions)
    → Numbered fld_id (create_regular datasource title row_num panel_id fld_id e)
unfolding create_regular
create_regular-Numbered datasource title row_num panel_id fld_id e =
    rw (with_errors3-id e.errors3 (regular_errors fld_id e.errors1 e.errors2))
      (sym (five-upto fld_id), refl)

pub create_routes-Numbered :
    (datasource : Datasource) (title : String) (row_num : ℤ) (panel_id fld_id : ℕ) (e : Expressions)
    → Numbered fld_id (create_routes datasource title row_num panel_id fld_id e)
unfolding create_routes
create_routes-Numbered datasource title row_num panel_id fld_id e =
    rw (with_errors3-id e.errors3 (routes_errors fld_id e.errors1 e.errors2))
      (sym (five-upto fld_id), refl)

-- The places of the items, in the grid of 24 columns.
abbrev pub places : List PanelItem → List GridPos
places items = map (λ item. item.grid_pos) items

abbrev ends_before : ℤ → ℤ → ℤ → Bool
ends_before (pos a) (pos n) (pos b) = leb (a + n) b
ends_before _ _ _ = false

-- One of the two places ends where the other begins, or before.
abbrev apart : GridPos → GridPos → Bool
apart p q =
    ends_before p.x p.w q.x
    || ends_before q.x q.w p.x
    || (ends_before p.y p.h q.y || ends_before q.y q.h p.y)

-- No two places overlap, and each fits into the columns.
abbrev pub laid_out : List GridPos → Bool
laid_out [] = true
laid_out (p ∷ ps) = ends_before p.x p.w (pos 24) && (all (apart p) ps && laid_out ps)

-- In both kinds of panels with five items, no two items overlap, and each fits into the 24 columns of
-- the grid, whatever the expressions are.
create_panel_laid_out :
    (datasource : Datasource) (title : String) (row_num : ℤ) (panel_id fld_id : ℕ) (e : Expressions)
    → (laid_out (places (create_regular datasource title row_num panel_id fld_id e).1.panels)
        ≡ true)
      × (laid_out (places (create_routes datasource title row_num panel_id fld_id e).1.panels)
          ≡ true)
unfolding create_regular create_routes
create_panel_laid_out datasource title row_num panel_id fld_id e =
    rw
      (
        with_errors3-place e.errors3 (regular_errors fld_id e.errors1 e.errors2),
        with_errors3-place e.errors3 (routes_errors fld_id e.errors1 e.errors2),
      )
      (refl, refl)
