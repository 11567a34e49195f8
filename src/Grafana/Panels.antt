-- ===== src/Grafana/Panels.antt =====
-- pkg/grafana/generate_grafana.go: `createRegular`, `createRoutes`, `createCustom`. The rune that
-- counts the targets of an item is a character of ASCII: an item with more than 62 targets, whose
-- references go on after "~", is not modelled.
use Prim.Native.Char.{code}
use Prim.Native.String as Text
use ocm_service_common.Common.{
  ◌&&◌, leb, ◌==◌, ℕ, suc, ◌+◌, String, Bool, true, false, Option, none, some, List, [], ◌∷◌, ◌++◌,
  if◌then◌else◌,
}
use ocm_service_common.Common.Int.{ℤ, pos}
use ocm_service_common.Common.Text.{contains}
use ocm_service_common.Grafana.Types.Item.{
  empty_datasource, empty_grid_pos, empty_target, Target, PanelItem, Datasource,
}
use ocm_service_common.Grafana.Replace.{replace_all}
use ocm_service_common.Grafana.Types.Dashboard.{empty_panel, Panel}
use ocm_service_common.Grafana.Outcome.{dereference, returns, ◌>>=◌, Outcome}
use ocm_service_common.Grafana.Expressions.{Expressions}
use ocm_service_common.Grafana.Items.RegularStats.{regular_latency, regular_availability}
use ocm_service_common.Grafana.Items.RoutesStats.{routes_latency, routes_availability}
use ocm_service_common.Grafana.Items.RoutesSeries.{routes_duration, routes_errors, routes_requests}
use ocm_service_common.Grafana.Items.RegularSeries.{
  regular_duration, regular_errors, regular_requests,
}

-- The target that is added to the third item of a panel for the third kind of errors.
unfoldable pub errors3_target : String → Target
unfolding contains
errors3_target expr_errors3 = record empty_target {
  expr = expr_errors3;
  legend_format = some (
      if contains expr_errors3 "4..|0"
      then "4xx - {{deployment_ring}}"
      else "5xx and timeout - {{deployment_ring}}");
  ref_id = "B";
}

unfoldable pub with_errors3 : Option String → PanelItem → PanelItem
unfolding errors3_target
with_errors3 none item = item
with_errors3 (some e) item = record item { targets = item.targets ++ errors3_target e ∷ [] }

abbrev pub row : Datasource → ℤ → ℕ → Panel
row datasource row_num panel_id = record empty_panel {
  type = "row";
  grid_pos = record empty_grid_pos { h = pos 1; w = pos 24; x = pos 0; y = row_num };
  id = panel_id;
  collapsed = true;
  datasource = record empty_datasource { type = datasource.type; uid = datasource.uid };
}

unfoldable pub create_regular : Datasource → String → ℤ → ℕ → ℕ → Expressions → ℕ × Panel
unfolding errors3_target
create_regular datasource title row_num panel_id fld_id e = (
  fld_id + 5,
  record (row datasource row_num panel_id) {
    title = title;
    panels =
        regular_availability fld_id e.availability
        ∷ regular_requests fld_id e.requests
        ∷ with_errors3 e.errors3 (regular_errors fld_id e.errors1 e.errors2)
        ∷ regular_duration fld_id e.duration
        ∷ regular_latency fld_id e.latency
        ∷ [];
  },
)

-- The title that is given is not used.
unfoldable pub create_routes : Datasource → String → ℤ → ℕ → ℕ → Expressions → ℕ × Panel
unfolding errors3_target
create_routes datasource title row_num panel_id fld_id e = (
  fld_id + 5,
  record (row datasource row_num panel_id) {
    title = "$route";
    repeat = "route";
    repeat_direction = "h";
    panels =
        routes_availability fld_id e.availability
        ∷ routes_requests fld_id e.requests
        ∷ with_errors3 e.errors3 (routes_errors fld_id e.errors1 e.errors2)
        ∷ routes_duration fld_id e.duration
        ∷ routes_latency fld_id e.latency
        ∷ [];
  },
)

-- `strings.EqualFold` with a text of small ASCII letters: large letters are folded, and the two other
-- letters whose fold is an ASCII letter, the long s and the sign of the Kelvin.
abbrev fold_code : ℕ → ℕ
fold_code n =
    if leb 65 n && leb n 90 then n + 32 else if n == 383 then 115 else if n == 8490 then 107 else n

unfoldable pub equal_fold : String → String → Bool
equal_fold Text.[] Text.[] = true
equal_fold Text.[] (Text.◌∷◌ d t) = false
equal_fold (Text.◌∷◌ c s) Text.[] = false
equal_fold (Text.◌∷◌ c s) (Text.◌∷◌ d t) = (fold_code (code c) == code d) && equal_fold s t

-- The characters from 'A' on.
abbrev letters : String
letters = "ABCDEFGHIJKLMNOPQRSTUVWXYZ[\\]^_`abcdefghijklmnopqrstuvwxyz{|}~"

abbrev head_text : String → String
head_text Text.[] = ""
head_text (Text.◌∷◌ c s) = Text.◌∷◌ c ""

abbrev tail_text : String → String
tail_text Text.[] = ""
tail_text (Text.◌∷◌ c s) = s

-- The loop over the targets, with the characters from `refId` on.
unfoldable pub number_targets : String → String → List Target → List Target
unfolding replace_all
number_targets service refs [] = []
number_targets service refs (t ∷ targets) =
    record t { expr = replace_all t.expr "grafana.service" service; ref_id = head_text refs }
    ∷ number_targets service (tail_text refs) targets

-- One pass of the loop over the items.
unfoldable pub custom_item : String → ℕ → PanelItem → Outcome PanelItem
unfolding number_targets equal_fold
custom_item service fld_id item = do
  type ← dereference item.type
  returns (record item {
    id = fld_id;
    plugin_version = some (if equal_fold type "timeseries" then "10.4.1" else "7.2.1");
    targets = number_targets service letters item.targets;
  })

unfoldable pub custom_items : String → ℕ → List PanelItem → Outcome (ℕ × List PanelItem)
unfolding custom_item
custom_items service fld_id [] = returns (fld_id, [])
custom_items service fld_id (item ∷ items) = do
  numbered ← custom_item service fld_id item
  rest ← custom_items service (suc fld_id) items
  returns (rest.0, numbered ∷ rest.1)

unfoldable pub create_custom :
    String → Datasource → List PanelItem → ℤ → ℕ → ℕ → String → Outcome (ℕ × Panel)
unfolding custom_items
create_custom title datasource items row_num panel_id fld_id service = do
  numbered ← custom_items service fld_id items
  returns (
    numbered.0,
    record (row datasource row_num panel_id) {
      title = title;
      datasource = datasource;
      panels = numbered.1;
    },
  )
