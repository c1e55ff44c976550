-- ===== src/Storage.antt =====
-- The backend-agnostic helpers of src/storage/storage_local.c.
pub mod FileName
pub mod Sha256
pub mod Contents
pub mod Local
pub mod Supabase
