-- ===== src/Grafana/Items.antt =====
-- pkg/grafana/generate_grafana.go: the items of the panels.
pub mod RegularStats
pub mod RegularSeries
pub mod RoutesStats
pub mod RoutesSeries
