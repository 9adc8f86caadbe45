-- ===== src/Order.antt =====
-- internal/order: the order service.
pub mod Model
pub mod StateMachine
pub mod Repository
pub mod Service
pub mod Audit
pub mod Handler
