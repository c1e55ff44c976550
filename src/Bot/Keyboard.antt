-- ===== src/Bot/Keyboard.antt =====
-- The callback data of the two buttons that `tg_send_message_with_keyboard` (src/telegram/bot.c)
-- puts under a message.
use kaufbot.Prelude.{◌++◌, ℤ}
use kaufbot.CText.{Text, codes, copy_to}
use kaufbot.CText.Decimal.{show_ℤ}

unfoldable pub retry_data : ℤ → Text
retry_data id = copy_to 64 (codes "retry:" ++ show_ℤ id)

unfoldable pub delete_data : ℤ → Text
delete_data id = copy_to 64 (codes "delete:" ++ show_ℤ id)
