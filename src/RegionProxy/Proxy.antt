-- ===== src/RegionProxy/Proxy.antt =====
-- pkg/middleware/region_proxy.go: the cache of cluster regions and the handler. The LRU cache is a
-- library, so the code is over an interface of it; the configured handlers and the search of AMS
-- are parameters. Log lines and the metric are left out.
use ocm_service_common.Common.{
  String, Bool, true, false, not, ◌&&◌, Option, none, some, List, [], ◌∷◌, ◌++◌, ◌≡◌, ◌≢◌, str_eq,
  if◌then◌else◌,
}
use ocm_service_common.Common.Result.{Result, ok, err}
use ocm_service_common.Common.Text.{concat}

pub record ClusterIds : Type 0 where
  pub id : String
  pub external_id : String

pub data Error : Type 0 where
  local_check_failed ams_failed invalid_url : String → Error

-- The part of `expirable.LRU` that the code uses. `get` answers and `touch` is what answering does
-- to the cache; `expire` is what time may do to it. An addition is there until then, and neither
-- an addition nor the passing of time invents an entry.
pub record RegionCache : Type 1 where
  pub State : Type 0
  pub empty : State
  pub get : State → String → Option String
  pub touch : State → String → State
  pub add : State → String → String → State
  pub expire : State → State
  pub get-empty : (k : String) → get empty k ≡ none
  pub get-touch : (s : State) (k j : String) → get (touch s k) j ≡ get s j
  pub get-add_self : (s : State) (k v : String) → get (add s k v) k ≡ some v
  pub get-add_ne :
      (s : State) (k j v w : String) → k ≢ j → get (add s k v) j ≡ some w → get s j ≡ some w
  pub get-expire : (s : State) (k w : String) → get (expire s) k ≡ some w → get s k ≡ some w

-- What the handlers do to a request.
pub data Effect : Type 0 where
  serve_next : Effect
  proxy_to : String → Effect
  handle_error : Error → Effect

unfoldable pub subscription_search : ClusterIds → String
subscription_search ids =
    if not (str_eq ids.id "")
    then concat ("cluster_id='" ∷ ids.id ∷ "'" ∷ [])
    else concat ("external_cluster_id='" ∷ ids.external_id ∷ "'" ∷ [])

-- The region of the first subscription; a cluster without subscriptions has the empty region.
abbrev first_region : List String → String
first_region [] = ""
first_region (region ∷ regions) = region

-- The region and the error, as Go returns both.
unfoldable pub get_rh_region_id :
    (String → Result Error (List String)) → ClusterIds → String × Option Error
unfolding subscription_search
get_rh_region_id search ids = elim (search (subscription_search ids)) [
  | err e ↦ ("", some e)
  | ok regions ↦ (first_region regions, none)
]

-- The default dispatch handler; `parse_host` is the host that url.Parse finds.
unfoldable pub default_dispatch_handler :
    (String → Result Error String) → String → List Effect × Option Error
default_dispatch_handler parse_host region =
    if not (str_eq region "")
    then elim (parse_host (concat ("https://api." ∷ region ∷ ".openshift.com" ∷ []))) [
      | err e ↦ ([], some e)
      | ok host ↦ (proxy_to host ∷ [], none)
    ]
    else (serve_next ∷ [], none)

module _ (cache : RegionCache) where
  open cache use {State, get, touch, add}

  unfoldable pub check_cache : State → List String → Option String × State
  check_cache s [] = (none, s)
  check_cache s (id ∷ ids) = elim (get s id) [
    | some value ↦ (some value, touch s id)
    | none ↦ check_cache (touch s id) ids
  ]

  unfoldable pub update_cache : State → String → List String → State
  update_cache s region [] = s
  update_cache s region (id ∷ ids) =
      update_cache (if not (str_eq id "") then add s id region else s) region ids

-- The middleware's configuration; a check handler that is nil is `none`.
pub record RegionProxy : Type 0 where
  pub check_local_handler : Option (ClusterIds → Result Error Bool)
  pub search_subscriptions : String → Result Error (List String)
  pub dispatch_handler : String → List Effect × Option Error

-- `if err != nil { rp.errorHandler(w, r, err) }`.
abbrev pub report : Option Error → List Effect
report none = []
report (some e) = handle_error e ∷ []

unfoldable pub dispatch : RegionProxy → String → List Effect
dispatch rp region = let (effects, failed) = rp.dispatch_handler region in effects ++ report failed

module _ (cache : RegionCache) (rp : RegionProxy) where
  open cache use {State}

  -- The region is asked of AMS and written to the cache before its error is looked at.
  unfoldable pub ask_ams : State → ClusterIds → List Effect × State
  unfolding update_cache dispatch get_rh_region_id
  ask_ams s ids =
      let (region, failed) = get_rh_region_id rp.search_subscriptions ids in
      let s' = update_cache cache s region (ids.id ∷ ids.external_id ∷ []) in
      elim failed [ some e ↦ (handle_error e ∷ [], s') | none ↦ (dispatch rp region, s') ]

  unfoldable pub resolve : State → ClusterIds → List Effect × State
  unfolding ask_ams update_cache
  resolve s ids = elim rp.check_local_handler [
    | none ↦ ask_ams s ids
    | some check_local ↦ elim (check_local ids) [
      | err e ↦ (handle_error e ∷ [], s)
      | ok true ↦ (serve_next ∷ [], update_cache cache s "" (ids.id ∷ ids.external_id ∷ []))
      | ok false ↦ ask_ams s ids
    ]
  ]

  abbrev resolve_missing : Option String × State → ClusterIds → List Effect × State
  resolve_missing (some region, s) ids = (dispatch rp region, s)
  resolve_missing (none, s) ids = resolve s ids

  -- The handler, for the ids that the configured getClusterIdsHandler finds in the request.
  unfoldable pub proxy_handler : State → ClusterIds → List Effect × State
  unfolding check_cache
  proxy_handler s ids =
      if str_eq ids.id "" && str_eq ids.external_id ""
      then (serve_next ∷ [], s)
      else resolve_missing (check_cache cache s (ids.id ∷ ids.external_id ∷ [])) ids
