-- ===== src/Bot/Defs.antt =====
-- `TgBot` of src/telegram/bot.h, and the calls to Telegram that src/telegram/bot_commands.c makes.
use kaufbot.Prelude.{ℕ, Option, none, some, [], ◌∷◌, ℤ, Call}
use kaufbot.CText.{Text}
use kaufbot.CText.Decimal.{strtoll}
use kaufbot.Backend.{Bytes, DbBackend, StorageBackend}
use kaufbot.Config.{Config}
use kaufbot.Processor.Defs.{Processor}

abbrev pub max_reply_len : ℕ
max_reply_len = 4096

-- The functions of bot.h that send to Telegram and fetch from it; `none` is a NULL result.
pub record Telegram (W : Type 0) : Type 0 where
  pub send_message : ℤ → Text → Call W (Unit {0})
  pub send_message_with_keyboard : ℤ → Text → ℤ → Call W (Unit {0})
  pub answer_callback_query : Text → Option Text → Call W (Unit {0})
  pub delete_message : ℤ → ℤ → Call W (Unit {0})
  pub get_file_path : Text → Call W (Option Text)
  pub download_file : Text → Call W (Option Bytes)

pub record TgBot (W : Type 0) : Type 0 where
  pub cfg : Config
  pub processor : Processor W
  pub db : DbBackend W
  pub storage : Option (StorageBackend W)
  pub telegram : Telegram W

abbrev whole_number : Option (ℤ × Text) → Option ℤ
whole_number none = none
whole_number (some (id, [])) = some id
whole_number (some (id, c ∷ cs)) = none

-- `strtoll(arg, &end, 10)`, refused by `end == arg || *end != '\0'`
unfoldable pub parse_id : Text → Option ℤ
parse_id arg = whole_number (strtoll arg)
