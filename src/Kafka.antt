-- ===== src/Kafka.antt =====
-- pkg/kafka.
pub mod Admin
pub mod Topics
pub mod Headers
pub mod Producer
pub mod Consumer
