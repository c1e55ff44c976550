-- ===== src/Bot/Dispatch/Presses.antt =====
-- What the world is after the query of a button (src/telegram/bot_commands.c), told call by call.
use kaufbot.Prelude.{
  ◌≡◌, ◌≢◌, refl, sym, subst, true, false, Bool-cases, inl, inr, Option, none, some, [], ◌∷◌, ◌++◌,
  ℤ, pos, eq_ℤ,
}
use kaufbot.CText.{Text, codes, copy_to}
use kaufbot.CText.Decimal.{show_ℤ}
use kaufbot.Extern.{Doubles, Cjson, item, double_of}
use kaufbot.Backend.{FileRecord, StorageBackend, Found, found, missing, failed}
use kaufbot.Processor.Retry.{retry_ocr}
use kaufbot.Bot.Defs.{TgBot, max_reply_len}
use kaufbot.Bot.Delete.{delete_stored, delete_found, after_delete, do_delete_file}
use kaufbot.Bot.Commands.{written, send_retry}
use kaufbot.Bot.Dispatch.{
  chat_id_in, int64_or_zero, remove_message, deleted, callback_delete, retry_in_chat,
  callback_retry,
}

module _ {d : Doubles} (cj : Cjson d) {W : Type 0} (bot : TgBot W) where
  -- Without a file of the storage, if there is a storage and the name is not empty.
  unfoldable pub without_file : Option (StorageBackend W) → Text → W → W
  without_file (some s) (c ∷ cs) w = (s.delete_file (c ∷ cs) w).1
  without_file (some s) [] w = w
  without_file none name w = w

  delete_stored_lem :
      (storage : Option (StorageBackend W)) (name : Text) (w : W)
      → (delete_stored storage name w).1 ≡ without_file storage name w
  unfolding delete_stored without_file
  delete_stored_lem none name w = refl
  delete_stored_lem (some s) [] w = refl
  delete_stored_lem (some s) (c ∷ cs) w = refl

  module _ (query : Text) (message : cj.Node) (id : ℤ) where
    -- The world after an answer to the query.
    abbrev pub answered : Text → W → W
    answered text w = (bot.telegram.answer_callback_query query (some text) w).1

    -- Without the message, if it and its chat have numbers.
    unfoldable pub without_message : Option d.Double → Option d.Double → W → W
    without_message (some chat) (some number) w =
        (bot.telegram.delete_message (d.to_int64 chat) (d.to_int64 number) w).1
    without_message (some chat) none w = w
    without_message none number w = w

    -- The two files of a record are deleted behind its lookup.
    abbrev pub without_files : FileRecord → W → W
    without_files rec w =
        without_file bot.storage rec.ocr_file_name
          (without_file bot.storage rec.saved_file_name (bot.db.find_by_id id w).1)

    -- What a press of the delete button does: the record is looked up, the storage is asked to delete
    -- the files that it names, and then the database to delete its row; the message is deleted and
    -- the query answered with success only where the row was deleted. An answer says so where it was
    -- not, or where there is no record.
    pub data DeletePressed (w : W) : W → Type 0 where
      row_deleted :
          (rec : FileRecord)
          → (bot.db.find_by_id id w).0 ≡ found rec
          → (bot.db.delete_file id (without_files rec w)).0 ≡ true
          → DeletePressed w (
              answered (codes "File deleted.") (
                without_message
                  (chat_id_in cj message)
                  (double_of cj (item cj (some message) (codes "message_id")))
                  (bot.db.delete_file id (without_files rec w)).1))
      row_not_deleted :
          (rec : FileRecord)
          → (bot.db.find_by_id id w).0 ≡ found rec
          → (bot.db.delete_file id (without_files rec w)).0 ≡ false
          → DeletePressed w (
              answered
                (copy_to max_reply_len (codes "Failed to delete file " ++ (show_ℤ id ++ codes ".")))
                (bot.db.delete_file id (without_files rec w)).1)
      no_record :
          ((rec : FileRecord) → (bot.db.find_by_id id w).0 ≢ found rec)
          → DeletePressed w (
              answered
                (copy_to max_reply_len
                  (codes "File with ID " ++ (show_ℤ id ++ codes " not found.")))
                (bot.db.find_by_id id w).1)

    remove_message_lem :
        (chat number : Option d.Double) (w : W)
        → (remove_message cj bot chat number w).1 ≡ without_message chat number w
    unfolding remove_message without_message
    remove_message_lem none number w = refl
    remove_message_lem (some chat) none w = refl
    remove_message_lem (some chat) (some number) w = refl

    delete_found-DeletePressed :
        (w : W) (r : Found FileRecord)
        → (bot.db.find_by_id id w).0 ≡ r
        → DeletePressed w (
            let (out, w') = delete_found bot id max_reply_len r (bot.db.find_by_id id w).1 in
            (deleted cj bot query message out w').1)
    unfolding delete_found after_delete deleted
    delete_found-DeletePressed w (found rec) e =
        let w1 = (bot.db.find_by_id id w).1 in
        let saved = delete_stored_lem bot.storage rec.saved_file_name w1 in
        let ocr =
          delete_stored_lem bot.storage rec.ocr_file_name
            (without_file bot.storage rec.saved_file_name w1) in
        elim (Bool-cases (bot.db.delete_file id (without_files rec w)).0) [
          | inl done ↦
              let chat = chat_id_in cj message in
              let number = double_of cj (item cj (some message) (codes "message_id")) in
              let w2 = (bot.db.delete_file id (without_files rec w)).1 in
              rw (saved, ocr, done, after_delete, deleted)
                (subst (λ v. DeletePressed w (answered (codes "File deleted.") v))
                  (sym (remove_message_lem chat number w2)) (row_deleted rec e done))
          | inr kept ↦ rw (saved, ocr, kept, after_delete, deleted) (row_not_deleted rec e kept)
        ]
    delete_found-DeletePressed w missing e = no_record (λ rec h. absurd (cc (e, h)))
    delete_found-DeletePressed w failed e = no_record (λ rec h. absurd (cc (e, h)))

    pub callback_delete-DeletePressed :
        (w : W) → DeletePressed w (callback_delete cj bot query message id w).1
    unfolding callback_delete do_delete_file
    callback_delete-DeletePressed w = delete_found-DeletePressed w (bot.db.find_by_id id w).0 refl

    -- The retry behind the first answer.
    abbrev pub retry_at : W → W
    retry_at w = answered (codes "Retrying OCR...") w

    -- What a press of the retry button does: the query is answered, the receipt of the id is parsed
    -- again by `processor_retry_ocr`, and its reply goes to the chat of the message, with the buttons
    -- only where the retry succeeded; without a chat nothing follows the answer.
    pub data RetryPressed (w : W) : W → Type 0 where
      retried :
          (chat : d.Double)
          → chat_id_in cj message ≡ some chat
          → eq_ℤ (d.to_int64 chat) (pos 0) ≡ false
          → (retry_ocr cj bot.processor id max_reply_len (retry_at w)).0.succeeded ≡ true
          → RetryPressed w
              (bot.telegram.send_message_with_keyboard
                (d.to_int64 chat)
                (written (retry_ocr cj bot.processor id max_reply_len (retry_at w)).0.reply)
                id
                (retry_ocr cj bot.processor id max_reply_len (retry_at w)).1).1
      not_retried :
          (chat : d.Double)
          → chat_id_in cj message ≡ some chat
          → eq_ℤ (d.to_int64 chat) (pos 0) ≡ false
          → (retry_ocr cj bot.processor id max_reply_len (retry_at w)).0.succeeded ≡ false
          → RetryPressed w
              (bot.telegram.send_message
                (d.to_int64 chat)
                (written (retry_ocr cj bot.processor id max_reply_len (retry_at w)).0.reply)
                (retry_ocr cj bot.processor id max_reply_len (retry_at w)).1).1
      no_chat :
          eq_ℤ (int64_or_zero cj (chat_id_in cj message)) (pos 0) ≡ true
          → RetryPressed w (retry_at w)

    send_retry-RetryPressed :
        (w : W) (chat : Option d.Double)
        → chat_id_in cj message ≡ chat
        → RetryPressed w
            (retry_in_chat cj bot
              (int64_or_zero cj chat)
              id
              (retry_ocr cj bot.processor id max_reply_len)
              (retry_at w)).1
    unfolding retry_in_chat int64_or_zero send_retry
    send_retry-RetryPressed w none e = no_chat (rw e refl)
    send_retry-RetryPressed w (some chat) e = elim (Bool-cases (eq_ℤ (d.to_int64 chat) (pos 0))) [
      | inl zero_ ↦ rw zero_ (no_chat (rw e zero_))
      | inr chat_ ↦
          elim (Bool-cases (retry_ocr cj bot.processor id max_reply_len (retry_at w)).0.succeeded) [
            | inl done ↦ rw (chat_, done) (retried chat e chat_ done)
            | inr kept ↦ rw (chat_, kept) (not_retried chat e chat_ kept)
          ]
    ]

    pub callback_retry-RetryPressed :
        (w : W) → RetryPressed w (callback_retry cj bot query message id w).1
    unfolding callback_retry
    callback_retry-RetryPressed w = send_retry-RetryPressed w (chat_id_in cj message) refl
