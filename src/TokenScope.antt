-- ===== src/TokenScope.antt =====
-- The token scope validation middleware (pkg/middleware/token_validation.go): its state and
-- errors, the validation of a request, the polling of AMS, and the laws of each.
pub mod State
pub mod Validation
pub mod Reading
pub mod ScopeLists
pub mod ScopeLaws
pub mod OfflineLaws
pub mod Polling
pub mod PollingLaws
pub mod LoopLaws
mod Tests
