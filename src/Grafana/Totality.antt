-- ===== src/Grafana/Totality.antt =====
-- Which configurations the loop of the generator accepts.
use ocm_service_common.Common.{
  suc, ◌∷◌, [], All, Bool-cases, inl, inr, ap, ◌∙◌, false, Bool, ℕ, List, String, true, Option,
  none, some, ◌≡◌, refl, sym, subst, is_some,
}
use ocm_service_common.Grafana.Outcome.{panics, ◌>>=◌, returns, dereference, Outcome}
use ocm_service_common.Grafana.Generate.{
  skips, path_step, paths_loop, custom_step, routes_step, Progress, five_items_step,
  item_expressions,
}
use ocm_service_common.Grafana.Types.Config.{Exception, ConfigPanelItem}
use ocm_service_common.Grafana.Panels.{create_custom, custom_item, custom_items}
use ocm_service_common.Grafana.Expressions.{
  prepare_expressions, errors3_expression, update_grafana_service,
}
use ocm_service_common.Grafana.Types.Item.{PanelItem, Datasource}
use ocm_service_common.Grafana.Replace.{normalize_path, replace_all}
use ocm_service_common.Common.Text.{contains}

abbrev pub Returns : {A : Type 0} → Outcome A → Type 0
Returns {A} m = (a : A) × (m ≡ returns a)

pub Returns-bind :
    {A B : Type 0} (m : Outcome A) (f : A → Outcome B)
    → Returns m
    → ((a : A) → m ≡ returns a → Returns (f a))
    → Returns (m >>= f)
Returns-bind m f (a, e) k = subst (λ x. Returns (x >>= f)) (sym e) (k a e)

pub Returns-known :
    {A B : Type 0} (m : Outcome A) (f : A → Outcome B) (a : A)
    → m ≡ returns a
    → Returns (f a)
    → Returns (m >>= f)
Returns-known m f a e h = subst (λ x. Returns (x >>= f)) (sym e) h

pub dereference-Holds_of :
    {A B : Type 0} (Q : Outcome B → Type 0) (o : Option A) (f : A → Outcome B)
    → is_some o ≡ true
    → ((a : A) → o ≡ some a → Q (f a))
    → Q (dereference o >>= f)
dereference-Holds_of Q none f h k = cc
dereference-Holds_of Q (some a) f h k = k a refl

-- The six expressions that a panel of five items needs.
abbrev pub HasExpressions : ConfigPanelItem → Type 0
HasExpressions item =
    (is_some item.availability ≡ true)
    × (is_some item.requests ≡ true)
    × (is_some item.errors1 ≡ true)
    × (is_some item.errors2 ≡ true)
    × (is_some item.duration ≡ true)
    × (is_some item.latency ≡ true)

-- The exception of a panel, with an expression of its own.
abbrev pub HasException : ConfigPanelItem → Type 0
HasException item =
    (exception : Exception) × (item.exception ≡ some exception) × (is_some exception.errors3 ≡ true)

item_expressions-Returns :
    (item : ConfigPanelItem) → HasExpressions item → Returns (item_expressions item)
unfolding item_expressions
item_expressions-Returns item (a, b, c, d, e, f) =
    dereference-Holds_of Returns item.availability _ a (λ availability known.
      dereference-Holds_of Returns item.requests _ b (λ requests known.
        dereference-Holds_of Returns item.errors1 _ c (λ errors1 known.
          dereference-Holds_of Returns item.errors2 _ d (λ errors2 known.
            dereference-Holds_of Returns item.duration _ e (λ duration known.
              dereference-Holds_of Returns item.latency _ f (λ latency known. (_, refl)))))))

-- The panel with the service in its expressions.
abbrev IsUpdated : ConfigPanelItem → Outcome ConfigPanelItem → Type 0
IsUpdated item m =
    (updated : ConfigPanelItem) × (m ≡ returns updated)
    × HasExpressions updated
    × (updated.path ≡ item.path)

update_grafana_service-IsUpdated :
    (item : ConfigPanelItem) (service : String)
    → HasExpressions item
    → IsUpdated item (update_grafana_service item service)
unfolding update_grafana_service
update_grafana_service-IsUpdated item service (a, b, c, d, e, f) =
    dereference-Holds_of (IsUpdated item) item.availability _ a (λ availability known.
      dereference-Holds_of (IsUpdated item) item.requests _ b (λ requests known.
        dereference-Holds_of (IsUpdated item) item.errors1 _ c (λ errors1 known.
          dereference-Holds_of (IsUpdated item) item.errors2 _ d (λ errors2 known.
            dereference-Holds_of (IsUpdated item) item.duration _ e (λ duration known.
              dereference-Holds_of (IsUpdated item) item.latency _ f
                (λ latency known. (_, refl, (refl, refl, refl, refl, refl, refl), refl)))))))

custom_items-Returns :
    (service : String) (fld_id : ℕ) (items : List PanelItem)
    → All (λ item. is_some item.type ≡ true) items
    → Returns (custom_items service fld_id items)
unfolding custom_items custom_item
custom_items-Returns service fld_id [] h = (_, refl)
custom_items-Returns service fld_id (item ∷ items) h =
    Returns-bind (custom_item service fld_id item) _
      (dereference-Holds_of Returns item.type _ h.0 (λ type known. (_, refl)))
      (λ numbered known.
        Returns-bind (custom_items service (suc fld_id) items) _
          (custom_items-Returns service (suc fld_id) items h.1) (λ rest e. (_, refl)))

module _ (sprintf : String → List String → String) (source : Datasource) (service : String)
    (skip_service_account : Option Bool) where
  errors3_expression-Returns :
      (path : String) (exception : Exception)
      → is_some exception.errors3 ≡ true
      → Returns (errors3_expression sprintf service path exception)
  unfolding errors3_expression
  errors3_expression-Returns path exception h = elim (Bool-cases (contains path exception.path)) [
    | inl e ↦ rw e (given exception.errors3 h)
    | inr e ↦ rw e (_, refl)
  ]
    where
      given :
          (errors3 : Option String)
          → is_some errors3 ≡ true
          → Returns (elim errors3 [
            | none ↦ panics
            | some format ↦ returns (
                sprintf
                  (replace_all format "grafana.service" service)
                  (path ∷ exception.method ∷ path ∷ exception.method ∷ []))
          ])
      given none k = cc
      given (some format) k = (_, refl)

  prepare_expressions-Returns :
      (skip : Bool) (path : String) (exception : Exception)
      → is_some exception.errors3 ≡ true
      → Returns (prepare_expressions sprintf service skip path exception)
  unfolding prepare_expressions
  prepare_expressions-Returns skip path exception h =
      Returns-bind (errors3_expression sprintf service path exception) _
        (errors3_expression-Returns path exception h) (λ expression e. (_, refl))

  pub five_items_step-Returns :
      (item : ConfigPanelItem) (g : Progress)
      → is_some item.path ≡ true
      → HasExpressions item
      → Returns (five_items_step sprintf (some source) service skip_service_account item g)
  unfolding five_items_step
  five_items_step-Returns item g path h =
      let (updated, same, more, kept) = update_grafana_service-IsUpdated item service h in
      Returns-known (update_grafana_service item service) _ updated same (
        dereference-Holds_of Returns updated.path _ (ap is_some kept ∙ path) (λ title known.
          Returns-bind (item_expressions updated) _ (item_expressions-Returns updated more)
            (λ e same. (_, refl))))

  pub routes_step-Returns :
      (item : ConfigPanelItem) (g : Progress)
      → is_some item.path ≡ true
      → HasException item
      → Returns (routes_step sprintf (some source) service skip_service_account item g)
  unfolding routes_step
  routes_step-Returns item g path (exception, same, h) = rw same (
      Returns-bind (prepare_expressions sprintf service false "$route" exception) _
        (prepare_expressions-Returns false "$route" exception h)
        (λ e known. dereference-Holds_of Returns item.path _ path (λ title known. (_, refl))))

  pub paths_loop-Returns :
      (item : ConfigPanelItem) (paths : List String) (g : Progress)
      → HasException item
      → Returns (paths_loop sprintf (some source) service skip_service_account item paths g)
  unfolding paths_loop path_step
  paths_loop-Returns item [] g h = (g, refl)
  paths_loop-Returns item (path ∷ paths) g h =
      Returns-bind (path_step sprintf (some source) service skip_service_account item path g) _
        (step g h) (λ g' e. paths_loop-Returns item paths g' h)
    where
      step :
          (g : Progress)
          → HasException item
          → Returns (path_step sprintf (some source) service skip_service_account item path g)
      step g (exception, same, h) = rw same (
          Returns-bind
            (prepare_expressions sprintf service (skips skip_service_account) (normalize_path path)
              exception)
            _
            (prepare_expressions-Returns (skips skip_service_account) (normalize_path path)
              exception h)
            (λ e known. (_, refl)))

  pub custom_step-Returns :
      (item : ConfigPanelItem) (g : Progress) (items : List PanelItem)
      → is_some item.path ≡ true
      → item.panels ≡ some items
      → All (λ item. is_some item.type ≡ true) items
      → Returns (custom_step sprintf (some source) service skip_service_account item g)
  unfolding custom_step create_custom
  custom_step-Returns item g items path same h =
      dereference-Holds_of Returns item.path _ path (λ title known. rw same (
        Returns-bind (create_custom title source items g.row_num g.panel_id g.fld_id service) _
          (Returns-bind (custom_items service g.fld_id items) _
            (custom_items-Returns service g.fld_id items h) (λ numbered e. (_, refl)))
          (λ built e. (_, refl))))
