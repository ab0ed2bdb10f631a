-- ===== src/Models.antt =====
-- internal/models: the data that the components exchange.
pub mod Job
pub mod Task
pub mod User
mod Tests
