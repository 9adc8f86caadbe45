-- ===== src/Notification.antt =====
-- internal/notification.
pub mod Model
pub mod Hub
pub mod Handler
pub mod Consumer
pub mod Service
