-- ===== src/Notifications.antt =====
-- The client of the notifications service (pkg/client/notifications).
pub mod Client
pub mod Laws
mod Tests
