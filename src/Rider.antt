-- ===== src/Rider.antt =====
-- internal/rider.
pub mod Model
pub mod Repository
pub mod Service
pub mod Handler
