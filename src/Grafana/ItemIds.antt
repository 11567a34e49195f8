-- ===== src/Grafana/ItemIds.antt =====
-- The identifiers of all items of a generated dashboard.
use ocm_service_common.Common.{
  append-nil, ℕ, zero, suc, ◌+◌, String, List, [], ◌∷◌, ◌++◌, ◌≡◌, refl, length, arith,
  length-append, sym, ap, ◌∙◌, append_assoc,
}
use ocm_service_common.Grafana.PanelLaws.{Numbered, item_ids, upto}
use ocm_service_common.Grafana.Generate.{Progress}
use ocm_service_common.Grafana.Types.Item.{Datasource, PanelItem}
use ocm_service_common.Grafana.Types.Dashboard.{Panel}
use ocm_service_common.Common.Int.{ℤ}
use ocm_service_common.Grafana.Panels.{custom_item, custom_items, create_custom}
use ocm_service_common.Grafana.Outcome.{dereference, Holds-bind, Holds-then, Holds}
use mathlib.Core.Path.{ap₂}

-- The items of all panels.
abbrev pub all_items : List Panel → List PanelItem
all_items [] = []
all_items (p ∷ ps) = p.panels ++ all_items ps

-- The items are numbered from 1 on, and the next number follows.
abbrev pub IsNumbered : Progress → Type 0
IsNumbered g =
    (item_ids (all_items g.panels) ≡ upto 1 (length (all_items g.panels)))
    × (g.fld_id ≡ 1 + length (all_items g.panels))

all_items-append :
    (ps : List Panel) (p : Panel) → all_items (ps ++ p ∷ []) ≡ all_items ps ++ p.panels
all_items-append [] p = append-nil p.panels
all_items-append (q ∷ ps) p =
    ap (λ xs. q.panels ++ xs) (all_items-append ps p)
    ∙ sym (append_assoc q.panels (all_items ps) p.panels)

item_ids-append : (xs ys : List PanelItem) → item_ids (xs ++ ys) ≡ item_ids xs ++ item_ids ys
item_ids-append [] ys = refl
item_ids-append (x ∷ xs) ys = ap (λ zs. x.id ∷ zs) (item_ids-append xs ys)

pub upto-append : (first n m : ℕ) → upto first n ++ upto (first + n) m ≡ upto first (n + m)
upto-append first zero m = ground arith
upto-append first (suc n) m =
    let shift : first + suc n ≡ suc first + n = ground arith in
    let one_more : suc n + m ≡ suc (n + m) = ground arith in
    rw (shift, one_more) (ap (λ xs. first ∷ xs) (upto-append (suc first) n m))

-- The panel's items continue the numbers.
pub append_panel-IsNumbered :
    (g : Progress) (built : ℕ × Panel) (row_num : ℤ) (panel_id : ℕ)
    → IsNumbered g
    → Numbered g.fld_id built
    → IsNumbered (record g {
      row_num = row_num;
      panel_id = panel_id;
      fld_id = built.0;
      panels = g.panels ++ built.1 ∷ [];
    })
append_panel-IsNumbered g (next, panel) row_num panel_id (ids, count) (new_ids, new_count) =
    rw
      (
        all_items-append g.panels panel,
        item_ids-append (all_items g.panels) panel.panels,
        length-append (all_items g.panels) panel.panels,
        ids,
        new_ids,
        new_count,
        count,
      )
      (upto-append 1 (length (all_items g.panels)) (length panel.panels), ground arith)

custom_item-id :
    (service : String) (fld_id : ℕ) (item : PanelItem)
    → Holds (λ x. x.id ≡ fld_id) (custom_item service fld_id item)
unfolding custom_item
custom_item-id service fld_id item = Holds-then _ (dereference item.type) _ (λ type. refl)

custom_items-Numbered :
    (service : String) (fld_id : ℕ) (items : List PanelItem)
    → Holds
        (λ r. (item_ids r.1 ≡ upto fld_id (length r.1)) × (r.0 ≡ fld_id + length r.1))
        (custom_items service fld_id items)
unfolding custom_items
custom_items-Numbered service fld_id [] = (refl, ground arith)
custom_items-Numbered service fld_id (item ∷ items) =
    Holds-bind _ (custom_item service fld_id item) _ (custom_item-id service fld_id item)
      (λ numbered e.
        Holds-bind _ (custom_items service (suc fld_id) items) _
          (custom_items-Numbered service (suc fld_id) items)
          (λ r h. (ap₂ (λ x xs. x ∷ xs) e h.0, ground (arith, h.1))))

pub create_custom-Numbered :
    (title : String) (datasource : Datasource) (items : List PanelItem) (row_num : ℤ)
    (panel_id fld_id : ℕ) (service : String)
    → Holds (Numbered fld_id) (create_custom title datasource items row_num panel_id fld_id service)
unfolding create_custom
create_custom-Numbered title datasource items row_num panel_id fld_id service =
    Holds-bind _ (custom_items service fld_id items) _ (custom_items-Numbered service fld_id items)
      (λ r h. h)
