-- ===== src/RegionProxy.antt =====
-- The region proxy (pkg/middleware/region_proxy.go and region_proxy_options.go).
pub mod Proxy
pub mod Config
pub mod ConfigLaws
pub mod CacheLaws
pub mod Laws
mod Tests
