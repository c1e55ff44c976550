-- ===== src/Reply.antt =====
-- src/telegram/reply_builder.c
pub mod Writer
pub mod Builder
