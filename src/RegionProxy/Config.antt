-- ===== src/RegionProxy/Config.antt =====
-- pkg/middleware/region_proxy.go, region_proxy_options.go: `NewRegionProxy` and its options. The types of
-- the logger, the connection, the cache and the four handlers are parameters, and so are the defaults.
use ocm_service_common.Common.{Option, none, some, List, [], ◌∷◌}

-- `if x == nil { x = d }`.
abbrev pub or_default : {A : Type 0} → Option A → A → Option A
or_default none d = some d
or_default (some a) d = some a

module _ (L C K I V D E : Type 0) where
  -- The struct; what is nil is `none`.
  pub record Settings : Type 0 where
    pub logger : Option L
    pub connection : Option C
    pub cluster_cache : Option K
    pub get_cluster_ids_handler : Option I
    pub check_local_handler : Option V
    pub dispatch_handler : Option D
    pub error_handler : Option E

  pub record Defaults : Type 0 where
    pub default_cache : K
    pub default_logger : L
    pub default_dispatch : D
    pub default_error : E

  -- `RegionProxyMiddwareOption`, by what it is given; the cache is always made.
  pub data ProxyOption : Type 0 where
    with_proxy_logger : Option L → ProxyOption
    with_sdk_connection : Option C → ProxyOption
    with_cluster_cache : K → ProxyOption
    with_get_cluster_ids_handler : Option I → ProxyOption
    with_check_local_handler : Option V → ProxyOption
    with_dispatch_handler : Option D → ProxyOption
    with_error_handler : Option E → ProxyOption

  abbrev pub unset : Settings
  unset = record {
    logger = none;
    connection = none;
    cluster_cache = none;
    get_cluster_ids_handler = none;
    check_local_handler = none;
    dispatch_handler = none;
    error_handler = none;
  }

  unfoldable pub apply_option : Settings → ProxyOption → Settings
  apply_option s (with_proxy_logger x) = record s { logger = x }
  apply_option s (with_sdk_connection x) = record s { connection = x }
  apply_option s (with_cluster_cache x) = record s { cluster_cache = some x }
  apply_option s (with_get_cluster_ids_handler x) = record s { get_cluster_ids_handler = x }
  apply_option s (with_check_local_handler x) = record s { check_local_handler = x }
  apply_option s (with_dispatch_handler x) = record s { dispatch_handler = x }
  apply_option s (with_error_handler x) = record s { error_handler = x }

  unfoldable pub apply_options : Settings → List ProxyOption → Settings
  unfolding apply_option
  apply_options s [] = s
  apply_options s (option ∷ options) = apply_options (apply_option s option) options

  -- The defaults of what is nil after the options; the connection and two of the handlers have none.
  unfoldable pub with_defaults : Defaults → Settings → Settings
  with_defaults d s = record s {
    cluster_cache = or_default s.cluster_cache d.default_cache;
    logger = or_default s.logger d.default_logger;
    dispatch_handler = or_default s.dispatch_handler d.default_dispatch;
    error_handler = or_default s.error_handler d.default_error;
  }

  unfoldable pub new_region_proxy : Defaults → List ProxyOption → Settings
  unfolding apply_options with_defaults
  new_region_proxy d options = with_defaults d (apply_options unset options)
