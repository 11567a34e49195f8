-- ===== src/Grafana.antt =====
-- pkg/grafana: the generator of a Grafana dashboard.
pub mod Outcome
pub mod Types
pub mod Items
pub mod Replace
pub mod ReplaceLaws
pub mod Expressions
pub mod Panels
pub mod PanelLaws
pub mod Sort
pub mod SortLaws
pub mod Generate
pub mod ItemIds
pub mod StepLaws
pub mod Numbering
pub mod PathOrder
pub mod Output
pub mod Totality
pub mod Complete
mod Tests
