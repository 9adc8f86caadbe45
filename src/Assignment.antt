-- ===== src/Assignment.antt =====
-- internal/assignment: the assignment service.
pub mod Model
pub mod Service
pub mod Consumer
