-- ===== src/Processor.antt =====
-- src/processor.c: the receipt pipeline.
pub mod Defs
pub mod Messages
pub mod Receipt
pub mod Upload
pub mod Retry
pub mod Frame
