-- ===== src/RegionProxy/CacheLaws.antt =====
-- The region proxy's cache: what an update writes, and what a lookup after it finds.
use ocm_service_common.Common.{
  ◌⊎◌, Option-cases, inr, eq_iff, inl, Bool-cases, String, Bool, false, not, ◌&&◌, Option, none,
  some, List, [], ◌∷◌, ◌≡◌, ◌≢◌, refl, arith, str_eq, if◌then◌else◌,
}
use ocm_service_common.Common.Result.{Result, ok}
use ocm_service_common.RegionProxy.Proxy.{update_cache, Error, check_cache, RegionCache, ClusterIds}

abbrev pub keys : ClusterIds → List String
keys ids = ids.id ∷ ids.external_id ∷ []

abbrev pub has_no_id : ClusterIds → Bool
has_no_id ids = str_eq ids.id "" && str_eq ids.external_id ""

-- The local check, if there is one, answered that the cluster is not here.
abbrev pub NotLocal : Option (ClusterIds → Result Error Bool) → ClusterIds → Type 0
NotLocal none ids = Unit
NotLocal (some check_local) ids = check_local ids ≡ ok false

module _ (cache : RegionCache) where
  open cache use {State, get, touch, add, get-touch, get-add_self, get-add_ne}

  pub check_cache_get :
      (s : State) (ids : List String) (j : String) → get (check_cache cache s ids).1 j ≡ get s j
  unfolding check_cache
  check_cache_get s [] j = refl
  check_cache_get s (id ∷ ids) j =
      ground (arith, get-touch s id j, check_cache_get (touch s id) ids j)

  -- One round of the loop of an update.
  unfoldable put : State → String → String → State
  put s region id = if not (str_eq id "") then add s id region else s

  put_found :
      (s : State) (region id j v : String)
      → get (put s region id) j ≡ some v
      → (v ≡ region) ⊎ (get s j ≡ some v)
  unfolding put
  put_found s region id j v found = elim (Bool-cases (str_eq id "")) [
    | inl nothing ↦ inr (ground arith)
    | inr named ↦ elim (Bool-cases (str_eq id j)) [
      | inl same ↦ inl (ground (arith, get-add_self s id region, eq_iff id j))
      | inr other ↦
          inr (get-add_ne s id j region v (λ e. cc (other, (eq_iff id j).1 e)) (ground arith))
    ]
  ]

  put_self : (s : State) (region id : String) → id ≢ "" → get (put s region id) id ≡ some region
  unfolding put
  put_self s region id named = ground (arith, eq_iff id "", get-add_self s id region)

  put_clean : (s : State) (region id : String) → get s "" ≡ none → get (put s region id) "" ≡ none
  unfolding put
  put_clean s region id clean = elim (Option-cases (get (put s region id) "")) [
    | inl missing ↦ missing
    | inr (v, found) ↦ elim (Bool-cases (str_eq id "")) [
      | inl nothing ↦ ground arith
      | inr named ↦ absurd (
          cc (
            clean,
            get-add_ne s id "" region v (λ e. cc (named, (eq_iff id "").1 e)) (ground arith),
          ))
    ]
  ]

  unfoldable pub updated : State → String → ClusterIds → State
  updated s region ids = update_cache cache s region (keys ids)

  updated_lem :
      (s : State) (region : String) (ids : ClusterIds)
      → updated s region ids ≡ put (put s region ids.id) region ids.external_id
  unfolding updated update_cache put
  updated_lem s region ids = refl

  updated_clean :
      (s : State) (region : String) (ids : ClusterIds)
      → get s "" ≡ none
      → get (updated s region ids) "" ≡ none
  updated_clean s region ids clean =
      rw updated_lem
        (put_clean (put s region ids.id) region ids.external_id (put_clean s region ids.id clean))

  -- A value found under the id after an update is the region that was written.
  id_after :
      (s : State) (region : String) (ids : ClusterIds) (v : String)
      → get s "" ≡ none
      → get (updated s region ids) ids.id ≡ some v
      → v ≡ region
  id_after s region ids v clean found = elim (Bool-cases (str_eq ids.id "")) [
    | inl nothing ↦
        absurd (cc (found, updated_clean s region ids clean, (eq_iff ids.id "").0 nothing))
    | inr named ↦
        elim (put_found (put s region ids.id) region ids.external_id ids.id v
          (rw updated_lem at found)) [
            | inl e ↦ e
            | inr kept ↦
                cc (kept, put_self s region ids.id (λ e. cc (named, (eq_iff ids.id "").1 e)))
          ]
  ]

  external_after :
      (s : State) (region : String) (ids : ClusterIds)
      → get (updated s region ids) ids.id ≡ none
      → has_no_id ids ≡ false
      → get (updated s region ids) ids.external_id ≡ some region
  unfolding put
  external_after s region ids evicted identified = elim (Bool-cases (str_eq ids.external_id "")) [
    | inr external ↦ rw updated_lem (
        put_self (put s region ids.id) region ids.external_id
          (λ e. cc (external, (eq_iff ids.external_id "").1 e)))
    | inl missing ↦ absurd (
        ground (
          arith,
          updated_lem s region ids,
          put_self s region ids.id (λ e. ground (arith, (eq_iff ids.id "").1 e)),
        ))
  ]

  -- A lookup right after an update finds the region that was written, even if the second entry
  -- evicted the first.
  pub check_after :
      (s : State) (region : String) (ids : ClusterIds)
      → get s "" ≡ none
      → has_no_id ids ≡ false
      → (check_cache cache (updated s region ids) (keys ids)).0 ≡ some region
  unfolding check_cache
  check_after s region ids clean identified =
      elim (Option-cases (get (updated s region ids) ids.id)) [
        | inr (v, found) ↦ ground (arith, id_after s region ids v clean found)
        | inl evicted ↦ ground (
          arith,
          get-touch (updated s region ids) ids.id ids.external_id,
          external_after s region ids evicted identified,
        )
      ]

pub update_clean :
    (cache : RegionCache) (s : RegionCache.State cache) (region : String) (ids : List String)
    → RegionCache.get cache s "" ≡ none
    → RegionCache.get cache (update_cache cache s region ids) "" ≡ none
unfolding update_cache put
update_clean cache s region [] clean = clean
update_clean cache s region (id ∷ ids) clean =
    update_clean cache (put cache s region id) region ids (put_clean cache s region id clean)
