-- ===== src/Bot.antt =====
-- src/telegram/bot.c and src/telegram/bot_commands.c: the Telegram side.
pub mod Defs
pub mod Keyboard
pub mod Delete
pub mod Listing
pub mod Commands
pub mod Files
pub mod Dispatch
pub mod Telegram
pub mod Poll
