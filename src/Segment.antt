-- ===== src/Segment.antt =====
-- The Segment client (pkg/client/segment): its types, the request context, and the track service.
pub mod Types
pub mod Context
pub mod Track
pub mod Identify
pub mod PropertyLaws
pub mod ContextLaws
pub mod EventLaws
pub mod TrackLaws
mod Tests
