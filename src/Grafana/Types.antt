-- ===== src/Grafana/Types.antt =====
-- pkg/grafana/grafana_types.go: the structs of the configuration and of the dashboard.
pub mod Field
pub mod Axis
pub mod Item
pub mod Options
pub mod Config
pub mod Dashboard
