-- ===== src/RegionProxy/Laws.antt =====
-- The region proxy: what the cache remembers of a request, and the keys that it may hold.
use ocm_service_common.Common.{
  ap, ◌∙◌, subst, String, Bool, true, false, Option, none, some, List, [], ◌∷◌, ◌≡◌, refl, arith,
}
use ocm_service_common.Common.Result.{Result, ok, err}
use ocm_service_common.RegionProxy.Proxy.{
  Effect, serve_next, subscription_search, default_dispatch_handler, dispatch, proxy_handler,
  resolve, ask_ams, get_rh_region_id, RegionProxy, Error, check_cache, RegionCache, ClusterIds,
}
use ocm_service_common.RegionProxy.CacheLaws.{
  check_after, update_clean, keys, NotLocal, has_no_id, check_cache_get, updated,
}

module _ (cache : RegionCache) where
  open cache use {State, get}

  module _ (rp : RegionProxy) where
    asked : ClusterIds → String
    asked ids = (get_rh_region_id rp.search_subscriptions ids).0

    ask_ams_state :
        (s : State) (ids : ClusterIds)
        → (ask_ams cache rp s ids).1 ≡ updated cache s (asked ids) ids
    unfolding ask_ams updated asked
    ask_ams_state s ids = ground arith

    resolve_state :
        (s : State) (ids : ClusterIds)
        → NotLocal rp.check_local_handler ids
        → (resolve cache rp s ids).1 ≡ updated cache s (asked ids) ids
    unfolding resolve asked
    resolve_state s ids away = by_handler rp.check_local_handler refl
      where
        by_handler :
            (h : Option (ClusterIds → Result Error Bool))
            → rp.check_local_handler ≡ h
            → (resolve cache rp s ids).1 ≡ updated cache s (asked ids) ids
        by_handler none e = rw (e, resolve) (ask_ams_state s ids)
        by_handler (some check) e =
            let answer : check ids ≡ ok false = subst (λ h. NotLocal h ids) e away in
            rw (e, resolve, answer) (ask_ams_state s ids)

    missed_state :
        (s : State) (ids : ClusterIds)
        → has_no_id ids ≡ false
        → (check_cache cache s (keys ids)).0 ≡ none
        → (proxy_handler cache rp s ids).1
          ≡ (resolve cache rp (check_cache cache s (keys ids)).1 ids).1
    unfolding proxy_handler
    missed_state s ids identified missed = ground arith

    hit_effects :
        (s : State) (ids : ClusterIds) (region : String)
        → has_no_id ids ≡ false
        → (check_cache cache s (keys ids)).0 ≡ some region
        → (proxy_handler cache rp s ids).0 ≡ dispatch rp region
    unfolding proxy_handler
    hit_effects s ids region identified hit = ground arith

-- A request that missed the cache and went to AMS decides the next request for the same cluster:
-- that one is dispatched to the region which the first one read, the empty one after a failure,
-- whatever its own configuration would answer.
pub proxy_handler_remembers :
    (cache : RegionCache) (rp rp' : RegionProxy) (s : RegionCache.State cache) (ids : ClusterIds)
    → has_no_id ids ≡ false
    → RegionCache.get cache s "" ≡ none
    → (check_cache cache s (keys ids)).0 ≡ none
    → NotLocal rp.check_local_handler ids
    → (proxy_handler cache rp' (proxy_handler cache rp s ids).1 ids).0
      ≡ dispatch rp' (get_rh_region_id rp.search_subscriptions ids).0
unfolding asked updated
proxy_handler_remembers cache rp rp' s ids identified clean missed away =
    let looked = (check_cache cache s (keys ids)).1 in
    rw (missed_state cache rp s ids identified missed, resolve_state cache rp looked ids away)
      (hit_effects cache rp' (updated cache looked (asked cache rp ids) ids) ids
        (asked cache rp ids) identified
        (check_after cache looked (asked cache rp ids) ids
          (check_cache_get cache s (keys ids) "" ∙ clean) identified))

-- After a search of AMS that failed, the default dispatch handler serves the next request for the
-- cluster locally, though the cluster's region was never read.
pub failed_search-served_locally :
    (cache : RegionCache) (rp rp' : RegionProxy) (s : RegionCache.State cache) (ids : ClusterIds)
    (parse_host : String → Result Error String) (e : Error)
    → has_no_id ids ≡ false
    → RegionCache.get cache s "" ≡ none
    → (check_cache cache s (keys ids)).0 ≡ none
    → NotLocal rp.check_local_handler ids
    → rp.search_subscriptions (subscription_search ids) ≡ err e
    → rp'.dispatch_handler ≡ default_dispatch_handler parse_host
    → (proxy_handler cache rp' (proxy_handler cache rp s ids).1 ids).0 ≡ serve_next ∷ []
unfolding get_rh_region_id dispatch default_dispatch_handler
failed_search-served_locally cache rp rp' s ids parse_host e identified clean missed away failed
      default =
    proxy_handler_remembers cache rp rp' s ids identified clean missed away
    ∙ ground (arith, failed, ap (λ (h : String → List Effect × Option Error). h "") default)

resolve_clean :
    (cache : RegionCache) (rp : RegionProxy) (s : RegionCache.State cache) (ids : ClusterIds)
    → RegionCache.get cache s "" ≡ none
    → RegionCache.get cache (resolve cache rp s ids).1 "" ≡ none
unfolding resolve updated
resolve_clean cache rp s ids clean = by_handler rp.check_local_handler refl
  where
    asked_clean : RegionCache.get cache (ask_ams cache rp s ids).1 "" ≡ none
    asked_clean = rw ask_ams_state (update_clean cache s (asked cache rp ids) (keys ids) clean)

    by_answer :
        (check : ClusterIds → Result Error Bool) (answer : Result Error Bool)
        → rp.check_local_handler ≡ some check
        → check ids ≡ answer
        → RegionCache.get cache (resolve cache rp s ids).1 "" ≡ none
    by_answer check (err e) h a = ground arith
    by_answer check (ok true) h a = ground (arith, update_clean cache s "" (keys ids) clean)
    by_answer check (ok false) h a = ground (arith, asked_clean)

    by_handler :
        (h : Option (ClusterIds → Result Error Bool))
        → rp.check_local_handler ≡ h
        → RegionCache.get cache (resolve cache rp s ids).1 "" ≡ none
    by_handler none e = ground (arith, asked_clean)
    by_handler (some check) e = by_answer check (check ids) e refl

-- No request puts an entry under the empty key.
proxy_handler_clean :
    (cache : RegionCache) (rp : RegionProxy) (s : RegionCache.State cache) (ids : ClusterIds)
    → RegionCache.get cache s "" ≡ none
    → RegionCache.get cache (proxy_handler cache rp s ids).1 "" ≡ none
unfolding proxy_handler
proxy_handler_clean cache rp s ids clean =
    let looked = check_cache_get cache s (keys ids) "" ∙ clean in
    ground (arith, resolve_clean cache rp (check_cache cache s (keys ids)).1 ids looked, looked)
