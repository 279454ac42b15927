-- ===== src/Notification.antt =====
-- internal/modules/notification: the hub of WebSocket clients.
pub mod Hub
pub mod Tests
