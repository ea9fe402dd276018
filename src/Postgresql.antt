-- ===== src/Postgresql.antt =====
-- postgresql/: the database helpers. `ErrorMap` is errors.go, `Tx` is tx.go.
pub mod ErrorMap
pub mod Tx
pub mod Config
pub mod Pool
