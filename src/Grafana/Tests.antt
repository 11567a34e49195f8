-- ===== src/Grafana/Tests.antt =====
-- The theorems of the generator at concrete inputs.
use mathlib.Core.List.Perm
use ocm_service_common.Common.{
  refl, str_eq, ap, arith, ◌≢◌, Bool, String, false, Option, none, some, List, [], ◌∷◌, ◌≡◌,
}
use ocm_service_common.Common.Int.{pos}
use ocm_service_common.Common.Result.{Result, ok}
use ocm_service_common.Grafana.Replace.{normalize_path}
use ocm_service_common.Grafana.Types.Config.{ConfigPanelItem}
use ocm_service_common.Grafana.Generate.{custom_step, Progress, start, panels_loop}
use ocm_service_common.Grafana.Expressions.{Expressions}
use ocm_service_common.Grafana.Types.Item.{empty_panel_item, Datasource}
use ocm_service_common.Grafana.Outcome.{returns, Holds}
use ocm_service_common.Grafana.ItemIds.{IsNumbered}
use ocm_service_common.Grafana.Numbering.{
  custom_step_repeats, panel_ids, panels_loop-IsCounted, panels_loop-IsNumbered, IsCounted,
}
use ocm_service_common.Metrics.{matched, round_trip_labels}
use ocm_service_common.Grafana.PathOrder.{panels_loop_order}
use ocm_service_common.Grafana.ReplaceLaws.{round_trip_labels-normalize_path}
use ocm_service_common.Grafana.Types.Dashboard.{empty_panel}
use ocm_service_common.Grafana.Complete.{has_customs, has_document, has_items, panels_loop_complete}

abbrev source : Datasource
source = record { type = some "prometheus"; uid = some "p1" }

abbrev query : Option String
query = some "rate(grafana.service)"

abbrev empty_panel_config : ConfigPanelItem
empty_panel_config = record {
  path = some "/api";
  type = none;
  availability = none;
  requests = none;
  errors1 = none;
  errors2 = none;
  errors3 = none;
  duration = none;
  latency = none;
  exception = none;
  panels = none;
}

abbrev five_items : ConfigPanelItem
five_items = record empty_panel_config {
  type = some "5items";
  availability = query;
  requests = query;
  errors1 = query;
  errors2 = query;
  duration = query;
  latency = query;
}

abbrev custom_panel : ConfigPanelItem
custom_panel = record empty_panel_config {
  type = some "custom";
  panels = some (record empty_panel_item { type = some "timeseries" } ∷ []);
}

abbrev expand : String → List String → String
expand format args = format

abbrev no_paths : String → Result String (List String)
no_paths path = Result.ok []

abbrev two_paths : String → Result String (List String)
two_paths path = Result.ok ("/b" ∷ "/a" ∷ [])

abbrev two_paths_swapped : String → Result String (List String)
two_paths_swapped path = Result.ok ("/a" ∷ "/b" ∷ [])

panels_loop-IsNumbered_example :
    Holds IsNumbered
      (panels_loop expand (some source) "svc" none no_paths (five_items ∷ custom_panel ∷ []) start)
panels_loop-IsNumbered_example =
    panels_loop-IsNumbered expand no_paths (some source) "svc" none (five_items ∷ custom_panel ∷ [])

abbrev is_custom : Option String → Bool
is_custom none = false
is_custom (some s) = str_eq s "custom"

not_custom : five_items.type ≢ some "custom"
not_custom e = cc (ap is_custom e)

panels_loop-IsCounted_example :
    Holds IsCounted
      (panels_loop expand (some source) "svc" none no_paths (five_items ∷ five_items ∷ []) start)
panels_loop-IsCounted_example =
    panels_loop-IsCounted expand no_paths (some source) "svc" none (five_items ∷ five_items ∷ [])
      (not_custom, (not_custom, tt))

abbrev document : ConfigPanelItem
document = record empty_panel_config {
  type = some "openapi";
  exception = some record { path = "/none"; method = "GET"; errors3 = none };
}

panels_loop_order_example :
    panels_loop expand (some source) "svc" none two_paths (document ∷ []) start
    ≡ panels_loop expand (some source) "svc" none two_paths_swapped (document ∷ []) start
panels_loop_order_example =
    panels_loop_order expand two_paths two_paths_swapped (λ path. Perm.swap "/a" "/b" [])
      (some source) "svc" none (document ∷ []) start

round_trip_labels-normalize_path_example :
    (round_trip_labels "c" (some (matched (ok "/x/{id}") "svc")) "GET" "/x/7" (some 200)).path
    ≡ normalize_path "/x/{id}"
round_trip_labels-normalize_path_example =
    round_trip_labels-normalize_path "/x/{id}" "c" "svc" "GET" "/x/7" (some 200) (
      λ e. ground arith,
      (
        λ e. ground arith,
        (
          λ e. ground arith,
          (λ e. ground arith, (λ e. ground arith, (λ e. ground arith, (λ e. ground arith, tt)))),
        ),
      ),
    )

abbrev expressions : Expressions
expressions = record {
  availability = "a";
  requests = "r";
  errors1 = "e";
  errors2 = "f";
  errors3 = some "4..|0";
  duration = "d";
  latency = "l";
}

abbrev one_panel : Progress
one_panel = record {
  row_num = pos 0;
  panel_id = 1;
  fld_id = 1;
  openapi_panel_presents = false;
  panels = record empty_panel { id = 1 } ∷ [];
}

custom_step_repeats_example :
    Holds
      (λ g. panel_ids g.panels ≡ 1 ∷ 1 ∷ [])
      (custom_step expand (some source) "svc" none custom_panel one_panel)
custom_step_repeats_example =
    custom_step_repeats expand no_paths (some source) "svc" none custom_panel one_panel
      (refl, refl, refl, refl)

abbrev document_config : ConfigPanelItem
document_config = record document {
  exception = some record { path = "/none"; method = "GET"; errors3 = some "rate" };
}

panels_loop_complete_example :
    (g : Progress) × (panels_loop expand
        (some source)
        "svc"
        none
        two_paths
        (five_items ∷ document_config ∷ custom_panel ∷ [])
        start
      ≡ returns g)
    × IsNumbered g
panels_loop_complete_example =
    panels_loop_complete expand two_paths source "svc" none
      (five_items ∷ document_config ∷ custom_panel ∷ [])
      (
        has_items refl refl (refl, refl, refl, refl, refl, refl),
        (
          has_document "/api" ("/b" ∷ "/a" ∷ []) refl refl refl
              (record { path = "/none"; method = "GET"; errors3 = some "rate" }, refl, refl),
          (
            has_customs (record empty_panel_item { type = some "timeseries" } ∷ []) refl refl refl
                (refl, tt),
            tt,
          ),
        ),
      )
