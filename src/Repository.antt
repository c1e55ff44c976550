-- ===== src/Repository.antt =====
-- The two implementations of the table of src/infra/file_repository.h.
pub mod Memory
pub mod Database
