-- ===== src/Deprecation.antt =====
-- The deprecation middleware (pkg/middleware/deprecation.go).
pub mod Match
pub mod MatchLaws
pub mod Handler
pub mod HandlerLaws
mod Tests
