-- ===== src/Store/Postgres.antt =====
-- internal/pgstore/store.go: the three ledgers in tables of a database, whose row-level security
-- (migrations/0001_init.sql) shows a transaction the rows of its tenant only.
pub mod Tables
pub mod Ledgers
pub mod Versions
pub mod Calls
pub mod Rows
pub mod Unchanged
pub mod Refined
pub mod Released
pub mod Agreed
pub mod Refines
