-- ===== src/Outbox.antt =====
-- outbox/: a transactional queue of tasks over PostgreSQL and the worker that delivers them.
pub mod Terminal
pub mod Queue
pub mod Config
pub mod Repository
pub mod Worker
mod Examples
