-- ===== src/Jira.antt =====
-- The Jira client (pkg/client/jira): the fields of an issue, its creation, the search, the transport.
pub mod Fields
pub mod Client
pub mod Transport
pub mod TransportLaws
pub mod FieldLaws
pub mod ClientLaws
pub mod CreateLaws
mod Tests
