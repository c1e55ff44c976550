-- ===== src/Bot/Dispatch.antt =====
-- `bot_dispatch_update` of src/telegram/bot_commands.c.
pub mod Access
pub mod Buttons
pub mod Presses
use kaufbot.Prelude.{
  ℕ, Bool, true, false, Option, none, some, List, [], ◌∷◌, drop, ℤ, pos, eq_ℤ, Call, pure, ◌>>=◌,
  ◌>>◌, if◌then◌else◌,
}
use kaufbot.CText.{Text, codes, copy_to, has_prefix}
use kaufbot.CText.Decimal.{leading_number}
use kaufbot.CText.Search.{strchr}
use kaufbot.Extern.{Doubles, Cjson, item, string_of, double_of, array_of}
use kaufbot.Config.{is_allowed, gemini_max_model_len}
use kaufbot.Processor.Retry.{RetryOutcome, retry_ocr, retry_ocr_with_model}
use kaufbot.Bot.Defs.{TgBot, max_reply_len}
use kaufbot.Bot.Delete.{do_delete_file}
use kaufbot.Bot.Commands.{handle_command, send_retry}
use kaufbot.Bot.Files.{dispatch_photo, dispatch_document}

module _ {d : Doubles} (cj : Cjson d) where
  -- `message->chat->id` and the like, if it is a number
  unfoldable pub id_in : Option cj.Node → Option d.Double
  id_in node = double_of cj (item cj node (codes "id"))

  unfoldable pub chat_id_in : cj.Node → Option d.Double
  unfolding id_in
  chat_id_in message = id_in (item cj (some message) (codes "chat"))

  -- A number as an `int64_t`, and 0 without one.
  unfoldable pub int64_or_zero : Option d.Double → ℤ
  int64_or_zero none = pos 0
  int64_or_zero (some x) = d.to_int64 x

  module _ {W : Type 0} (bot : TgBot W) where
    remove_message : Option d.Double → Option d.Double → Call W (Unit {0})
    remove_message (some chat) (some message) =
        bot.telegram.delete_message (d.to_int64 chat) (d.to_int64 message)
    remove_message _ _ = pure tt

    deleted : Text → cj.Node → Bool × Text → Call W (Unit {0})
    unfolding remove_message
    deleted query message (true, text) = do
      remove_message (chat_id_in message)
          (double_of cj (item cj (some message) (codes "message_id")))
      bot.telegram.answer_callback_query query (some (codes "File deleted."))
    deleted query message (false, text) = bot.telegram.answer_callback_query query (some text)

    -- `delete:<id>`
    unfoldable pub callback_delete : Text → cj.Node → ℤ → Call W (Unit {0})
    unfolding deleted
    callback_delete query message id = do
      r ← do_delete_file bot id max_reply_len
      deleted query message r

    -- A retry whose reply goes to a chat, unless the chat is 0.
    retry_in_chat : ℤ → ℤ → Call W RetryOutcome → Call W (Unit {0})
    retry_in_chat chat id retry =
        if eq_ℤ chat (pos 0) then pure tt else (do r ← retry; send_retry bot chat id r)

    -- `retry:<id>`
    unfoldable pub callback_retry : Text → cj.Node → ℤ → Call W (Unit {0})
    unfolding retry_in_chat
    callback_retry query message id = do
      bot.telegram.answer_callback_query query (some (codes "Retrying OCR..."))
      retry_in_chat (int64_or_zero (chat_id_in message)) id
          (retry_ocr cj bot.processor id max_reply_len)

    -- `rwm:<model>:<id>`, split at the colon
    callback_model : Text → cj.Node → Option (Text × Text) → Call W (Unit {0})
    unfolding retry_in_chat
    callback_model query message none = bot.telegram.answer_callback_query query none
    callback_model query message (some (model, rest)) =
        let id = leading_number (drop 1 rest) in
        (do
          bot.telegram.answer_callback_query query (some (codes "Retrying..."))
          retry_in_chat (int64_or_zero (chat_id_in message)) id (
              retry_ocr_with_model cj bot.processor id (some (copy_to gemini_max_model_len model))
                max_reply_len))

    callback_action : Text → Text → cj.Node → Call W (Unit {0})
    unfolding callback_delete callback_retry callback_model
    callback_action data_text query message =
        if has_prefix data_text (codes "delete:")
        then callback_delete query message (leading_number (drop 7 data_text))
        else if has_prefix data_text (codes "retry:")
        then callback_retry query message (leading_number (drop 6 data_text))
        else if has_prefix data_text (codes "rwm:")
        then callback_model query message (strchr b':' (drop 4 data_text))
        else bot.telegram.answer_callback_query query none

    callback_from : Text → Text → cj.Node → Option d.Double → Call W (Unit {0})
    unfolding callback_action
    callback_from data_text query message none = pure tt
    callback_from data_text query message (some user) =
        if is_allowed bot.cfg (d.to_int64 user)
        then callback_action data_text query message
        else bot.telegram.answer_callback_query query (some (codes "Not authorized."))

    callback_checked :
        Option Text → Option Text → Option cj.Node → Option cj.Node → Call W (Unit {0})
    unfolding callback_from
    callback_checked (some data_text) (some query) (some from) (some message) =
        callback_from data_text query message (id_in (some from))
    callback_checked _ _ _ _ = pure tt

    -- The part of `bot_dispatch_update` for a `callback_query`.
    dispatch_callback : cj.Node → Call W (Unit {0})
    unfolding callback_checked
    dispatch_callback query =
        callback_checked (string_of cj (item cj (some query) (codes "data")))
          (string_of cj (item cj (some query) (codes "id"))) (item cj (some query) (codes "from"))
          (item cj (some query) (codes "message"))

    -- The refusal in `dispatch_auth_check`.
    refuse_user : Option d.Double → Call W (Unit {0})
    refuse_user none = pure tt
    refuse_user (some chat) =
        bot.telegram.send_message (d.to_int64 chat)
          (codes "You are not authorised to use this bot.")

    -- What a message holds: a text, a photo, a document, or nothing that is supported.
    dispatch_content : ℤ → Option Text → Option (List cj.Node) → Option cj.Node → Call W (Unit {0})
    dispatch_content chat (some text) photos doc = handle_command cj bot chat text
    dispatch_content chat none (some photos) doc = dispatch_photo cj bot chat photos
    dispatch_content chat none none (some doc) = dispatch_document cj bot chat doc
    dispatch_content chat none none none =
        bot.telegram.send_message chat
          (codes "Unsupported message type. Please send an image or PDF.")

    dispatch_allowed : cj.Node → ℤ → Call W (Unit {0})
    unfolding dispatch_content
    dispatch_allowed message chat =
        if eq_ℤ chat (pos 0)
        then pure tt
        else dispatch_content chat (string_of cj (item cj (some message) (codes "text")))
            (array_of cj (item cj (some message) (codes "photo")))
            (item cj (some message) (codes "document"))

    dispatch_from : cj.Node → Option d.Double → Call W (Unit {0})
    unfolding refuse_user dispatch_allowed
    dispatch_from message none = pure tt
    dispatch_from message (some user) =
        if is_allowed bot.cfg (d.to_int64 user)
        then dispatch_allowed message (int64_or_zero (chat_id_in message))
        else refuse_user (chat_id_in message)

    dispatch_message : Option cj.Node → Call W (Unit {0})
    unfolding dispatch_from
    dispatch_message none = pure tt
    dispatch_message (some message) =
        dispatch_from message (id_in (item cj (some message) (codes "from")))

    dispatch_query : cj.Node → Option cj.Node → Call W (Unit {0})
    unfolding dispatch_callback dispatch_message
    dispatch_query update (some query) = dispatch_callback query
    dispatch_query update none = dispatch_message (item cj (some update) (codes "message"))

    -- `bot_dispatch_update`
    unfoldable pub dispatch_update : cj.Node → Call W (Unit {0})
    unfolding dispatch_query
    dispatch_update update = dispatch_query update (item cj (some update) (codes "callback_query"))
