-- ===== src/Bot/Files.antt =====
-- `handle_file`, `dispatch_photo` and `dispatch_document` of src/telegram/bot_commands.c.
use kaufbot.Prelude.{
  Bool, false, Option, none, some, List, [], ◌∷◌, ℤ, pos, ltb_ℤ, Call, pure, ◌>>=◌, ◌>>◌,
  if◌then◌else◌,
}
use kaufbot.CText.{Text, codes}
use kaufbot.Extern.{Doubles, Cjson, item, string_of, double_of}
use kaufbot.Backend.{Bytes}
use kaufbot.Processor.Upload.{Outcome, handle_file}
use kaufbot.Bot.Defs.{TgBot, max_reply_len}
use kaufbot.Bot.Commands.{written}

-- `cJSON_GetArrayItem(items, n - 1)`, for `n` items
last_item {ℓ} : {A : Type ℓ} → List A → Option A
last_item [] = none
last_item (x ∷ []) = some x
last_item (x ∷ y ∷ ys) = last_item (y ∷ ys)

module _ {d : Doubles} (cj : Cjson d) {W : Type 0} (bot : TgBot W) where
  -- The reply carries the buttons if the file was saved.
  send_outcome : ℤ → Outcome → Call W (Unit {0})
  send_outcome chat_id o =
      if ltb_ℤ (pos 0) o.out_id
      then bot.telegram.send_message_with_keyboard chat_id (written o.reply) o.out_id
      else bot.telegram.send_message chat_id (written o.reply)

  -- From the downloaded bytes on.
  file_downloaded : ℤ → Text → Option Bytes → Call W (Unit {0})
  unfolding send_outcome
  file_downloaded chat_id name none =
      bot.telegram.send_message chat_id (codes "File download failed.")
  file_downloaded chat_id name (some []) =
      bot.telegram.send_message chat_id (codes "Downloaded file is empty.")
  file_downloaded chat_id name (some (x ∷ xs)) = do
    bot.telegram.send_message chat_id (codes "Processing...")
    o ← handle_file cj bot.processor (some name) (some (x ∷ xs)) max_reply_len
    send_outcome chat_id o

  file_located : ℤ → Text → Option Text → Call W (Unit {0})
  unfolding file_downloaded
  file_located chat_id name none =
      bot.telegram.send_message chat_id (codes "Could not retrieve file info from Telegram.")
  file_located chat_id name (some path) = do
    data_bytes ← bot.telegram.download_file path
    file_downloaded chat_id name data_bytes

  -- `handle_file`
  receive_file : ℤ → Text → Text → Call W (Unit {0})
  unfolding file_located
  receive_file chat_id file_id name = do
    bot.telegram.send_message chat_id (codes "Downloading...")
    path ← bot.telegram.get_file_path file_id
    file_located chat_id name path

  receive_if_named : ℤ → Option Text → Text → Call W (Unit {0})
  unfolding receive_file
  receive_if_named chat_id none name = pure tt
  receive_if_named chat_id (some file_id) name = receive_file chat_id file_id name

  -- `dispatch_photo`, on the sizes of the photo: the last one is the largest.
  unfoldable pub dispatch_photo : ℤ → List cj.Node → Call W (Unit {0})
  unfolding receive_if_named last_item
  dispatch_photo chat_id photos =
      receive_if_named chat_id (string_of cj (item cj (last_item photos) (codes "file_id")))
        (codes "photo.jpg")

  -- `fsize->valuedouble > (double)bot->cfg->max_file_size_bytes`
  exceeds_limit : Option d.Double → Bool
  exceeds_limit none = false
  exceeds_limit (some x) = d.lt_d (d.of_size bot.cfg.max_file_size_bytes) x

  document_name : Option Text → Text
  document_name none = codes "file"
  document_name (some name) = name

  -- `dispatch_document`
  unfoldable pub dispatch_document : ℤ → cj.Node → Call W (Unit {0})
  unfolding receive_if_named exceeds_limit document_name
  dispatch_document chat_id doc =
      if exceeds_limit (double_of cj (item cj (some doc) (codes "file_size")))
      then bot.telegram.send_message chat_id (codes "File exceeds 20 MB - Telegram bot API limit.")
      else receive_if_named chat_id (string_of cj (item cj (some doc) (codes "file_id")))
          (document_name (string_of cj (item cj (some doc) (codes "file_name"))))
