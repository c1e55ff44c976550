-- ===== src/Utils.antt =====
-- src/utils.c: the helpers of the HTTP code.
pub mod Percent
pub mod Base64
pub mod GrowBuf
