-- ===== src/Bot/Delete.antt =====
-- `do_delete_file` of src/telegram/bot_commands.c.
use kaufbot.Prelude.{ℕ, Bool, true, false, Option, some, ◌∷◌, ◌++◌, ℤ, Call, pure, ◌>>=◌, ◌>>◌}
use kaufbot.CText.{Text, codes, copy_to}
use kaufbot.CText.Decimal.{show_ℤ}
use kaufbot.Backend.{FileRecord, StorageBackend, Found, found}
use kaufbot.Bot.Defs.{TgBot}

-- The end of `do_delete_file`, on whether the row was deleted.
unfoldable pub after_delete : ℕ → FileRecord → ℤ → Bool → Bool × Text
after_delete size rec id true = (
  true,
  copy_to size (
      codes "Deleted: "
      ++ (rec.original_file_name ++ (codes " (ID: " ++ (show_ℤ id ++ codes ")")))),
)
after_delete size rec id false =
    (false, copy_to size (codes "Failed to delete file " ++ (show_ℤ id ++ codes ".")))

module _ {W : Type 0} where
  -- A file is deleted if there is a storage and the name is not empty; the result is not read.
  unfoldable pub delete_stored : Option (StorageBackend W) → Text → Call W (Unit {0})
  delete_stored (some s) (c ∷ cs) = do s.delete_file (c ∷ cs); pure tt
  delete_stored storage name = pure tt

  unfoldable pub delete_found : TgBot W → ℤ → ℕ → Found FileRecord → Call W (Bool × Text)
  unfolding delete_stored after_delete
  delete_found bot id size (found rec) = do
    delete_stored bot.storage rec.saved_file_name
    delete_stored bot.storage rec.ocr_file_name
    done ← bot.db.delete_file id
    pure (after_delete size rec id done)
  delete_found bot id size _ =
      pure (false, copy_to size (codes "File with ID " ++ (show_ℤ id ++ codes " not found.")))

  -- `do_delete_file`: whether it returns 0, and the message; `size` is `msg_len`.
  unfoldable pub do_delete_file : TgBot W → ℤ → ℕ → Call W (Bool × Text)
  unfolding delete_found
  do_delete_file bot id size = do r ← bot.db.find_by_id id; delete_found bot id size r
