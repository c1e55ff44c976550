-- ===== src/Sqlite.antt =====
-- src/db/db_sqlite.c: the database backend over SQLite.
pub mod Defs
pub mod Queries
pub mod Changes
pub mod Receipts
pub mod Lists
pub mod Open
pub mod Finalized
