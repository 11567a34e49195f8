-- ===== src/Csv.antt =====
-- The parser of cloud resources (pkg/csv and pkg/api).
pub mod Parse
pub mod Spelling
pub mod ParseLaws
mod Tests
