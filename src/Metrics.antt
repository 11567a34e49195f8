-- ===== src/Metrics.antt =====
-- pkg/client/metrics_middleware.go: the labels of an outbound request. The router (gorilla/mux) is a
-- parameter: what it answers for a request. The counters belong to Prometheus.
use ocm_service_common.Common.{
  ℕ, String, Bool, true, false, not, Option, none, some, List, [], ◌∷◌, str_eq, if◌then◌else◌,
}
use ocm_service_common.Common.Result.{Result, ok, err}
use ocm_service_common.Common.Text.{split, concat}
use ocm_service_common.Metrics.Template.{replace_vars}
pub mod Template
pub mod TemplateLaws
pub mod Register
mod Tests

abbrev pub path_var_sub : String
path_var_sub = "-"

-- The answer of `router.Match`: a route with its name and its path template, which may fail to be
-- read, or no route.
pub data RouteMatch : Type 0 where
  matched : Result String String → String → RouteMatch
  unmatched : RouteMatch

-- The first part of a path that is not empty.
unfoldable pub first_part : List String → Option String
first_part [] = none
first_part (part ∷ parts) = if not (str_eq part "") then some part else first_part parts

abbrev slash_path : Option String → String
slash_path none = "/-"
slash_path (some part) = concat ("/" ∷ part ∷ [])

-- The path and the service name, for the answer of the router if there is one.
unfoldable pub reduce_path : Option RouteMatch → String → String × String
unfolding replace_vars first_part split
reduce_path none url_path = ("/-", "")
reduce_path (some (matched (ok template) name)) url_path = (replace_vars template, name)
reduce_path (some (matched (err e) name)) url_path = ("/-", "")
reduce_path (some unmatched) url_path = (slash_path (first_part (split url_path b'/')), "")

-- The labels of one request: service, method, path and code.
pub record Labels : Type 0 where
  pub service : String
  pub method : String
  pub path : String
  pub code : ℕ

-- `RoundTrip`, for the status of the response if there is one.
unfoldable pub round_trip_labels : String → Option RouteMatch → String → String → Option ℕ → Labels
unfolding reduce_path
round_trip_labels client_service route method url_path status =
    let (path, name) = reduce_path route url_path in
    record {
      service = if str_eq name "" then client_service else name;
      method = method;
      path = path;
      code = elim status [ none ↦ 0 | some code ↦ code ];
    }
