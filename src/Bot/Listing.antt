-- ===== src/Bot/Listing.antt =====
-- `/list` and `/models` of src/telegram/bot_commands.c.
pub mod Bounds
use kaufbot.Prelude.{
  ℕ, zero, suc, ◌+◌, ◌-◌, Bool, true, false, List, [], ◌∷◌, ◌++◌, length, take, leb, ltb,
  if◌then◌else◌, ℤ,
}
use kaufbot.CText.{Text, codes}
use kaufbot.CText.Decimal.{show_ℕ, show_ℤ}
use kaufbot.Reply.Writer.{Buffer, empty, append}
use kaufbot.Backend.{FileRecord}
use kaufbot.Bot.Defs.{max_reply_len}

abbrev pub max_list_entries : ℕ
max_list_entries = 10

-- `ListCtx`; `text` is the C string in `buf`.
pub record ListContext : Type 0 where
  pub text : Text
  pub pos : ℕ
  pub size : ℕ
  pub count : ℕ

-- The format of one entry.
unfoldable pub list_entry : FileRecord → Text
list_entry rec =
    codes "#"
    ++ (show_ℤ rec.id
        ++ (codes " - "
            ++ (rec.saved_file_name
                ++ (codes "\n   "
                    ++ (rec.original_file_name
                        ++ (codes " | "
                            ++ (show_ℤ rec.file_size_bytes
                                ++ (codes " bytes | "
                                    ++ ((if rec.is_ocr_processed
                                          then codes "done"
                                          else codes "pending")
                                        ++ codes "\n\n")))))))))

-- `list_cb`
unfoldable pub list_callback : ListContext → FileRecord → ListContext
list_callback c rec =
    let line = list_entry rec in
    let remaining = c.size - c.pos in
    if leb max_list_entries c.count then c else if leb c.size c.pos then c else record c {
      text = c.text ++ take (remaining - 1) line;
      pos = if ltb (length line) remaining then c.pos + length line else c.size - 1;
      count = c.count + 1;
    }

unfoldable pub list_all : ListContext → List FileRecord → ListContext
list_all c [] = c
list_all c (rec ∷ rest) = list_all (list_callback c rec) rest

-- The reply to `/list`.
unfoldable pub list_reply : List FileRecord → Text
unfolding list_all list_callback
list_reply recs =
    let header = codes "Recent uploads:\n\n" in
    (list_all (record { text = header; pos = length header; size = max_reply_len; count = 0 })
      recs).text

-- One line of `/models`.
unfoldable pub model_entry : ℕ → Text → Text
model_entry i model = codes "  " ++ (show_ℕ (i + 1) ++ (codes ". `" ++ (model ++ codes "`\n")))

-- The loop of `send_models`, which stops when `remaining <= 0`.
unfoldable pub list_models : ℕ → Buffer → List Text → Buffer
list_models i b [] = b
list_models i b (m ∷ ms) =
    if leb max_reply_len b.pos
    then b
    else list_models (i + 1) (append max_reply_len b (model_entry i m)) ms

abbrev first_model : List Text → Text
first_model [] = codes "gemini-2.5-flash"
first_model (m ∷ ms) = m

unfoldable pub models_usage : Text → Text
models_usage model =
    codes "\nUse: /retrywith <model> <id>\nExample: /retrywith " ++ (model ++ codes " <id>")

-- The buffer that `send_models` sends.
unfoldable pub models_reply : List Text → Buffer
unfolding list_models
models_reply models =
    let start = append max_reply_len empty (codes "Available Gemini models:\n\n") in
    append max_reply_len (list_models 0 start models) (models_usage (first_model models))
