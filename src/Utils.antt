-- ===== src/Utils.antt =====
-- The helpers of the folder utils/ (validation_helpers.go, retry.go).
pub mod Validation
pub mod Retry
pub mod RetryLaws
mod Tests
