-- ===== src/Postgres.antt =====
-- src/db/db_postgres.c: the database backend over PostgreSQL.
pub mod Defs
pub mod Queries
pub mod Changes
pub mod Open
pub mod Cleared
