-- ===== src/TestSuite.antt =====
-- The framework for API tests (pkg/test): the suite and its labels, the runs and their results.
pub mod Suite
pub mod Running
pub mod Setup
pub mod SuiteLaws
pub mod SetupLaws
pub mod RunLaws
pub mod StreamLaws
mod Tests
