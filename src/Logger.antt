-- ===== src/Logger.antt =====
-- The logger (pkg/ocmlogger): levels and the root logger, the key-value pairs of a line, the lines
-- and Sentry events that a call makes, and the wrappers for other interfaces.
pub mod Level
pub mod Extra
pub mod Log
pub mod Wrappers
pub mod LevelLaws
pub mod ExtraLaws
pub mod IdLaws
pub mod LogLaws
mod Tests
