-- ===== src/RegionProxy/ConfigLaws.antt =====
-- What the parts of a region proxy are, for the options that it is made with.
use ocm_service_common.Common.{Option, none, some, List, [], ◌∷◌, ◌≡◌, refl, ap, ◌∙◌}
use ocm_service_common.RegionProxy.Config.{
  with_error_handler, with_dispatch_handler, with_check_local_handler, with_get_cluster_ids_handler,
  with_cluster_cache, with_sdk_connection, with_proxy_logger, unset, ProxyOption, Settings,
  Defaults, apply_option, apply_options, with_defaults, or_default, new_region_proxy,
}

-- The second value where the first is not there.
abbrev pub value_or : {A : Type 0} → Option A → A → A
value_or none a = a
value_or (some a) b = a

or_default-value_or : {A : Type 0} (o : Option A) (d : A) → or_default o d ≡ some (value_or o d)
or_default-value_or none d = refl
or_default-value_or (some a) d = refl

-- What the last of the options that set a part sets it to, for what each option sets it to.
abbrev pub last_set : {O A : Type 0} → (O → Option A) → List O → Option A
last_set sets [] = none
last_set sets (o ∷ os) = elim (last_set sets os) [ some a ↦ some a | none ↦ sets o ]

abbrev pub or_unset : {A : Type 0} → Option (Option A) → Option A
or_unset none = none
or_unset (some x) = x

value_or-step :
    {A : Type 0} (later here : Option A) (before : A)
    → value_or later (value_or here before)
      ≡ value_or (elim later [ some a ↦ some a | none ↦ here ]) before
value_or-step none here before = refl
value_or-step (some a) here before = refl

value_or-or_unset : {A : Type 0} (x : Option (Option A)) → value_or x none ≡ or_unset x
value_or-or_unset none = refl
value_or-or_unset (some x) = refl

module _ {L C K I V D E : Type 0} where
  -- What an option sets each part to; a cache is always there.
  abbrev pub sets_logger : ProxyOption L C K I V D E → Option (Option L)
  sets_logger (with_proxy_logger x) = some x
  sets_logger _ = none

  abbrev pub sets_connection : ProxyOption L C K I V D E → Option (Option C)
  sets_connection (with_sdk_connection x) = some x
  sets_connection _ = none

  abbrev pub sets_cache : ProxyOption L C K I V D E → Option (Option K)
  sets_cache (with_cluster_cache x) = some (some x)
  sets_cache _ = none

  abbrev pub sets_ids : ProxyOption L C K I V D E → Option (Option I)
  sets_ids (with_get_cluster_ids_handler x) = some x
  sets_ids _ = none

  abbrev pub sets_local : ProxyOption L C K I V D E → Option (Option V)
  sets_local (with_check_local_handler x) = some x
  sets_local _ = none

  abbrev pub sets_dispatch : ProxyOption L C K I V D E → Option (Option D)
  sets_dispatch (with_dispatch_handler x) = some x
  sets_dispatch _ = none

  abbrev pub sets_error : ProxyOption L C K I V D E → Option (Option E)
  sets_error (with_error_handler x) = some x
  sets_error _ = none

  step_logger :
      (s : Settings L C K I V D E) (o : ProxyOption L C K I V D E)
      → (apply_option L C K I V D E s o).logger ≡ value_or (sets_logger o) s.logger
  unfolding apply_option
  step_logger s (with_proxy_logger x) = refl
  step_logger s _ = refl

  step_connection :
      (s : Settings L C K I V D E) (o : ProxyOption L C K I V D E)
      → (apply_option L C K I V D E s o).connection ≡ value_or (sets_connection o) s.connection
  unfolding apply_option
  step_connection s (with_sdk_connection x) = refl
  step_connection s _ = refl

  step_cache :
      (s : Settings L C K I V D E) (o : ProxyOption L C K I V D E)
      → (apply_option L C K I V D E s o).cluster_cache ≡ value_or (sets_cache o) s.cluster_cache
  unfolding apply_option
  step_cache s (with_cluster_cache x) = refl
  step_cache s _ = refl

  step_ids :
      (s : Settings L C K I V D E) (o : ProxyOption L C K I V D E)
      → (apply_option L C K I V D E s o).get_cluster_ids_handler
        ≡ value_or (sets_ids o) s.get_cluster_ids_handler
  unfolding apply_option
  step_ids s (with_get_cluster_ids_handler x) = refl
  step_ids s _ = refl

  step_local :
      (s : Settings L C K I V D E) (o : ProxyOption L C K I V D E)
      → (apply_option L C K I V D E s o).check_local_handler
        ≡ value_or (sets_local o) s.check_local_handler
  unfolding apply_option
  step_local s (with_check_local_handler x) = refl
  step_local s _ = refl

  step_dispatch :
      (s : Settings L C K I V D E) (o : ProxyOption L C K I V D E)
      → (apply_option L C K I V D E s o).dispatch_handler
        ≡ value_or (sets_dispatch o) s.dispatch_handler
  unfolding apply_option
  step_dispatch s (with_dispatch_handler x) = refl
  step_dispatch s _ = refl

  step_error :
      (s : Settings L C K I V D E) (o : ProxyOption L C K I V D E)
      → (apply_option L C K I V D E s o).error_handler ≡ value_or (sets_error o) s.error_handler
  unfolding apply_option
  step_error s (with_error_handler x) = refl
  step_error s _ = refl

  -- A part that each option sets as `sets` says is, after the options, what the last one set.
  part_lem :
      {A : Type 0} (sets : ProxyOption L C K I V D E → Option A) (part : Settings L C K I V D E → A)
      → ((s : Settings L C K I V D E) (o : ProxyOption L C K I V D E)
          → part (apply_option L C K I V D E s o) ≡ value_or (sets o) (part s))
      → (options : List (ProxyOption L C K I V D E)) (s : Settings L C K I V D E)
      → part (apply_options L C K I V D E s options) ≡ value_or (last_set sets options) (part s)
  unfolding apply_options
  part_lem sets part step [] s = refl
  part_lem sets part step (o ∷ options) s =
      part_lem sets part step options (apply_option L C K I V D E s o)
      ∙ ap (value_or (last_set sets options)) (step s o)
      ∙ value_or-step (last_set sets options) (sets o) (part s)

  -- The same from the start, where nothing is set.
  from_unset :
      {A : Type 0} (sets : ProxyOption L C K I V D E → Option (Option A))
      (part : Settings L C K I V D E → Option A)
      → ((s : Settings L C K I V D E) (o : ProxyOption L C K I V D E)
          → part (apply_option L C K I V D E s o) ≡ value_or (sets o) (part s))
      → part (unset L C K I V D E) ≡ none
      → (options : List (ProxyOption L C K I V D E))
      → part (apply_options L C K I V D E (unset L C K I V D E) options)
        ≡ or_unset (last_set sets options)
  from_unset sets part step start options =
      part_lem sets part step options (unset L C K I V D E)
      ∙ ap (value_or (last_set sets options)) start
      ∙ value_or-or_unset (last_set sets options)

  -- Each part of the proxy is what the last of its options set it to. Where that is nil or there was
  -- none, the logger, the cache and the handlers of dispatch and errors are the defaults, and the
  -- connection and the two other handlers are nil.
  pub new_region_proxy-last_set :
      (d : Defaults L C K I V D E) (options : List (ProxyOption L C K I V D E))
      → let p = new_region_proxy L C K I V D E d options in
        (p.logger ≡ some (value_or (or_unset (last_set sets_logger options)) d.default_logger))
        × (p.connection ≡ or_unset (last_set sets_connection options))
        × (p.cluster_cache
            ≡ some (value_or (or_unset (last_set sets_cache options)) d.default_cache))
        × (p.get_cluster_ids_handler ≡ or_unset (last_set sets_ids options))
        × (p.check_local_handler ≡ or_unset (last_set sets_local options))
        × (p.dispatch_handler
            ≡ some (value_or (or_unset (last_set sets_dispatch options)) d.default_dispatch))
        × (p.error_handler
            ≡ some (value_or (or_unset (last_set sets_error options)) d.default_error))
  unfolding new_region_proxy with_defaults apply_option
  new_region_proxy-last_set d options = (
    ap (λ x. or_default x d.default_logger)
          (from_unset sets_logger (λ s. s.logger) step_logger refl options)
        ∙ or_default-value_or (or_unset (last_set sets_logger options)) d.default_logger,
    from_unset sets_connection (λ s. s.connection) step_connection refl options,
    ap (λ x. or_default x d.default_cache)
          (from_unset sets_cache (λ s. s.cluster_cache) step_cache refl options)
        ∙ or_default-value_or (or_unset (last_set sets_cache options)) d.default_cache,
    from_unset sets_ids (λ s. s.get_cluster_ids_handler) step_ids refl options,
    from_unset sets_local (λ s. s.check_local_handler) step_local refl options,
    ap (λ x. or_default x d.default_dispatch)
          (from_unset sets_dispatch (λ s. s.dispatch_handler) step_dispatch refl options)
        ∙ or_default-value_or (or_unset (last_set sets_dispatch options)) d.default_dispatch,
    ap (λ x. or_default x d.default_error)
          (from_unset sets_error (λ s. s.error_handler) step_error refl options)
        ∙ or_default-value_or (or_unset (last_set sets_error options)) d.default_error,
  )
