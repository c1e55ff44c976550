-- ===== src/Bot/Commands.antt =====
-- `handle_command` of src/telegram/bot_commands.c.
use kaufbot.Prelude.{
  Bool, true, ◌||◌, ◌&&◌, Option, none, some, [], ◌∷◌, ◌++◌, drop, length, ◌==◌, ℤ, Call, ◌>>=◌,
  if◌then◌else◌,
}
use kaufbot.CText.{Text, codes, copy_to, has_prefix, skip_spaces}
use kaufbot.CText.Search.{strchr}
use kaufbot.Extern.{Doubles, Cjson}
use kaufbot.Config.{gemini_max_model_len}
use kaufbot.Processor.Retry.{RetryOutcome, retry_ocr, retry_ocr_with_model}
use kaufbot.Bot.Defs.{TgBot, max_reply_len, parse_id}
use kaufbot.Bot.Delete.{do_delete_file}
use kaufbot.Bot.Listing.{list_reply, models_reply}

-- What follows the command in `str_starts_with`: the end, or a space.
ends_command : Text → Bool
ends_command [] = true
ends_command (c ∷ cs) = c == b' '

-- `str_starts_with`
unfoldable pub is_command : Text → Text → Bool
unfolding ends_command
is_command text cmd = has_prefix text cmd && ends_command (drop (length cmd) text)

-- The argument behind a command, without the spaces in front of it.
unfoldable pub argument : Text → Text → Text
argument text cmd = skip_spaces (drop (length cmd) text)

help_text : Text
help_text =
    codes "Kaufbot - Receipt Scanner\n\nSend me a receipt photo or PDF and I will:\n"
    ++ (codes
          "  1. Extract text via Gemini OCR\n  2. Parse items, totals, and store name\n  3. Save results for later\n\n"
        ++ (codes
              "Commands:\n  /help              - this message\n  /list              - recent uploads\n"
            ++ (codes
                  "  /delete <id>       - delete a file\n  /retry <id>        - re-parse OCR text\n"
                ++ codes
                    "  /retrywith <model> <id> - re-run OCR with a model\n  /models            - list available models")))

-- The text in a buffer that was written.
abbrev pub written : Option Text → Text
written none = []
written (some t) = t

module _ {W : Type 0} (bot : TgBot W) where
  -- The reply to a retry carries the buttons if the retry succeeded.
  unfoldable pub send_retry : ℤ → ℤ → RetryOutcome → Call W (Unit {0})
  send_retry chat_id id r =
      if r.succeeded
      then bot.telegram.send_message_with_keyboard chat_id (written r.reply) id
      else bot.telegram.send_message chat_id (written r.reply)

  delete_parsed : ℤ → Option ℤ → Call W (Unit {0})
  delete_parsed chat_id none =
      bot.telegram.send_message chat_id (codes "Invalid ID. Usage: /delete <id>")
  delete_parsed chat_id (some id) = do
    r ← do_delete_file bot id max_reply_len
    bot.telegram.send_message chat_id r.1

  -- `/delete`, on its argument
  delete_command : ℤ → Text → Call W (Unit {0})
  unfolding delete_parsed
  delete_command chat_id [] = bot.telegram.send_message chat_id (codes "Usage: /delete <id>")
  delete_command chat_id (c ∷ cs) = delete_parsed chat_id (parse_id (c ∷ cs))

  -- `/list`
  list_command : ℤ → Call W (Unit {0})
  list_command chat_id = do recs ← bot.db.list; bot.telegram.send_message chat_id (list_reply recs)

module _ {d : Doubles} (cj : Cjson d) {W : Type 0} (bot : TgBot W) where
  retry_with_parsed : ℤ → Text → Option ℤ → Call W (Unit {0})
  retry_with_parsed chat_id model none =
      bot.telegram.send_message chat_id (codes "Invalid ID. Usage: /retrywith <model> <id>")
  retry_with_parsed chat_id model (some id) = do
    r ← retry_ocr_with_model cj bot.processor id (some model) max_reply_len
    send_retry bot chat_id id r

  -- From the search for the space behind the model on.
  retry_with_model : ℤ → Option (Text × Text) → Call W (Unit {0})
  unfolding retry_with_parsed
  retry_with_model chat_id none =
      bot.telegram.send_message chat_id
        (codes "Usage: /retrywith <model> <id>\nExample: /retrywith gemini-2.5-flash 42")
  retry_with_model chat_id (some (model, rest)) =
      retry_with_parsed chat_id (copy_to gemini_max_model_len model) (parse_id (skip_spaces rest))

  -- `/retrywith`, on its argument, which begins with no space
  retry_with_command : ℤ → Text → Call W (Unit {0})
  unfolding retry_with_model
  retry_with_command chat_id [] =
      bot.telegram.send_message chat_id
        (codes "Usage: /retrywith <model> <id>\nUse /models to list available models.")
  retry_with_command chat_id (c ∷ cs) = retry_with_model chat_id (strchr b' ' (c ∷ cs))

  retry_parsed : ℤ → Option ℤ → Call W (Unit {0})
  retry_parsed chat_id none =
      bot.telegram.send_message chat_id (codes "Invalid ID. Usage: /retry <id>")
  retry_parsed chat_id (some id) = do
    r ← retry_ocr cj bot.processor id max_reply_len
    send_retry bot chat_id id r

  -- `/retry`, on its argument
  retry_command : ℤ → Text → Call W (Unit {0})
  unfolding retry_parsed
  retry_command chat_id [] = bot.telegram.send_message chat_id (codes "Usage: /retry <id>")
  retry_command chat_id (c ∷ cs) = retry_parsed chat_id (parse_id (c ∷ cs))

  -- `handle_command`
  unfoldable pub handle_command : ℤ → Text → Call W (Unit {0})
  unfolding help_text list_command delete_command retry_with_command retry_command
  handle_command chat_id text =
      if is_command text (codes "/start") || is_command text (codes "/help")
      then bot.telegram.send_message chat_id help_text
      else if is_command text (codes "/models")
      then bot.telegram.send_message chat_id (models_reply bot.cfg.gemini_models).text
      else if is_command text (codes "/list")
      then list_command bot chat_id
      else if is_command text (codes "/delete")
      then delete_command bot chat_id (argument text (codes "/delete"))
      else if is_command text (codes "/retrywith")
      then retry_with_command chat_id (argument text (codes "/retrywith"))
      else if is_command text (codes "/retry")
      then retry_command chat_id (argument text (codes "/retry"))
      else bot.telegram.send_message chat_id (codes "Unknown command. Send /help for instructions.")
