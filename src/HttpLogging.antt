-- ===== src/HttpLogging.antt =====
-- The HTTP round trippers that log (pkg/logging): transport.go in Transport, transport_wrapper.go in
-- Wrapper.
pub mod Transport
pub mod TransportLaws
pub mod Wrapper
pub mod WrapperLaws
mod Tests
