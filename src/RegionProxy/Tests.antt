-- ===== src/RegionProxy/Tests.antt =====
-- The interface of the cache met by a map that never forgets, and the theorems of the region proxy
-- at concrete requests.
use ocm_service_common.Common.{
  ℕ, eq_iff, lookup-insert, String, false, none, some, List, [], ◌∷◌, ◌≡◌, ◌≢◌, refl, arith, lookup,
  insert,
}
use ocm_service_common.Common.Result.{Result, ok, err}
use ocm_service_common.RegionProxy.Proxy.{
  get_rh_region_id, resolve, dispatch, default_dispatch_handler, RegionCache, proxy_handler, Error,
  RegionProxy, ClusterIds, check_cache, serve_next, proxy_to, ams_failed,
}
use ocm_service_common.RegionProxy.Laws.{proxy_handler_remembers, failed_search-served_locally}
use ocm_service_common.RegionProxy.CacheLaws.{keys}
use ocm_service_common.RegionProxy.Config.{
  ProxyOption, with_cluster_cache, with_error_handler, Defaults, new_region_proxy,
}
use ocm_service_common.RegionProxy.ConfigLaws.{new_region_proxy-last_set}

get-add_self_map : (s : List (String × String)) (k v : String) → lookup k (insert k v s) ≡ some v
get-add_self_map s k v = ground (arith, lookup-insert k k v s, (eq_iff k k).1 refl)

get-add_ne_map :
    (s : List (String × String)) (k j v w : String)
    → k ≢ j
    → lookup j (insert k v s) ≡ some w
    → lookup j s ≡ some w
get-add_ne_map s k j v w ne h = ground (arith, lookup-insert k j v s, eq_iff k j)

get-empty_map : (k : String) → lookup {V = String} k [] ≡ none
unfolding lookup
get-empty_map k = refl

abbrev map_cache : RegionCache
map_cache = record {
  State = List (String × String);
  empty = [];
  get = λ s k. lookup k s;
  touch = λ s k. s;
  add = λ s k v. insert k v s;
  expire = λ s. s;
  get-empty = get-empty_map;
  get-touch = λ s k j. refl;
  get-add_self = get-add_self_map;
  get-add_ne = get-add_ne_map;
  get-expire = λ s k w h. h;
}

abbrev host_of : String → Result Error String
host_of url = ok url

abbrev broken : RegionProxy
broken = record {
  check_local_handler = some (λ ids. ok false);
  search_subscriptions = λ q. err (ams_failed "timeout");
  dispatch_handler = default_dispatch_handler host_of;
}

abbrev healthy : RegionProxy
healthy = record {
  check_local_handler = none;
  search_subscriptions = λ q. ok ("aws.ap-southeast-1" ∷ []);
  dispatch_handler = default_dispatch_handler host_of;
}

abbrev cluster : ClusterIds
cluster = record { id = "c1"; external_id = "x1" }

proxy_runs : Unit {0}
unfolding proxy_handler resolve default_dispatch_handler check_cache lookup insert
proxy_runs = tt

proxied :
    (proxy_handler map_cache healthy [] cluster).0
    ≡ proxy_to "https://api.aws.ap-southeast-1.openshift.com" ∷ []
unfolding proxy_runs
proxied = refl

missed : (check_cache map_cache [] (keys cluster)).0 ≡ none
unfolding proxy_runs
missed = refl

proxy_handler_remembers_example :
    (proxy_handler map_cache broken (proxy_handler map_cache healthy [] cluster).1 cluster).0
    ≡ dispatch broken (get_rh_region_id healthy.search_subscriptions cluster).0
proxy_handler_remembers_example =
    proxy_handler_remembers map_cache healthy broken [] cluster refl (get-empty_map "") missed tt

failed_search-served_locally_example :
    (proxy_handler map_cache healthy (proxy_handler map_cache broken [] cluster).1 cluster).0
    ≡ serve_next ∷ []
failed_search-served_locally_example =
    failed_search-served_locally map_cache broken healthy [] cluster host_of (ams_failed "timeout")
      refl (get-empty_map "") missed refl refl refl

-- Numbers in the place of the types of the proxy's parts.
abbrev defaults : Defaults ℕ ℕ ℕ ℕ ℕ ℕ ℕ
defaults = record {
  default_cache = 1000;
  default_logger = 1;
  default_dispatch = 2;
  default_error = 3;
}

abbrev three_options : List (ProxyOption ℕ ℕ ℕ ℕ ℕ ℕ ℕ)
three_options = with_error_handler (some 7) ∷ with_cluster_cache 10 ∷ with_error_handler none ∷ []

new_region_proxy-last_set_example :
    let p = new_region_proxy ℕ ℕ ℕ ℕ ℕ ℕ ℕ defaults three_options in
    (p.logger ≡ some 1)
    × (p.connection ≡ none)
    × (p.cluster_cache ≡ some 10)
    × (p.get_cluster_ids_handler ≡ none)
    × (p.check_local_handler ≡ none)
    × (p.dispatch_handler ≡ some 2)
    × (p.error_handler ≡ some 3)
new_region_proxy-last_set_example = new_region_proxy-last_set defaults three_options
