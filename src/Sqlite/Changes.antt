-- ===== src/Sqlite/Changes.antt =====
-- `sqlite_insert`, `sqlite_mark_ocr_done`, `sqlite_update_prompt` and `sqlite_delete_file`,
-- src/db/db_sqlite.c.
use kaufbot.Prelude.{
  Bool, true, false, Option, none, some, [], ◌∷◌, ◌++◌, ℤ, pos, ltb_ℤ, Call, ◌>>=◌,
}
use kaufbot.CText.{Text, codes, copy_to}
use kaufbot.Backend.{FileRecord, db_date_len}
use kaufbot.Sqlite.Defs.{Sqlite, bound_text, bound_int, flag_int, run_once}

module _ {W : Type 0} (sq : Sqlite W) where
  -- The record with what the database has given it.
  unfoldable pub inserted : FileRecord → Text → Bool → Call W (Option FileRecord)
  inserted rec now false w = (none, w)
  inserted rec now true w = (
    some (record rec {
      id = sq.last_insert_rowid w;
      created_at = copy_to db_date_len now;
      updated_at = copy_to db_date_len now;
    }),
    w,
  )

  -- `sqlite_insert`
  unfoldable pub sqlite_insert : FileRecord → Call W (Option FileRecord)
  unfolding inserted
  sqlite_insert rec = do
    now ← sq.now_iso8601
    ok ←
        run_once sq
          (codes "INSERT INTO files"
            ++ (codes " (original_file_name, file_size_bytes, saved_file_name, file_hash,"
                ++ (codes "  is_ocr_processed, ocr_file_name, created_at, updated_at)"
                    ++ codes " VALUES (?,?,?,?,?,?,?,?)")))
          (bound_text rec.original_file_name
            ∷ bound_int rec.file_size_bytes
            ∷ bound_text rec.saved_file_name
            ∷ bound_text rec.file_hash
            ∷ bound_int (flag_int rec.is_ocr_processed)
            ∷ bound_text rec.ocr_file_name
            ∷ bound_text now
            ∷ bound_text now
            ∷ [])
    inserted rec now ok

  -- `sqlite_mark_ocr_done`
  unfoldable pub sqlite_mark_ocr_done : ℤ → Text → Call W Bool
  sqlite_mark_ocr_done id ocr_file_name = do
    now ← sq.now_iso8601
    run_once sq
        (codes "UPDATE files SET is_ocr_processed=1, ocr_file_name=?, updated_at=?"
          ++ codes " WHERE id=?")
        (bound_text ocr_file_name ∷ bound_text now ∷ bound_int id ∷ [])

  -- `sqlite_update_prompt`
  unfoldable pub sqlite_update_prompt : ℤ → Text → Call W Bool
  sqlite_update_prompt id content = do
    now ← sq.now_iso8601
    run_once sq (codes "UPDATE prompts SET content=?, updated_at=? WHERE id=?")
        (bound_text content ∷ bound_text now ∷ bound_int id ∷ [])

  -- Whether a row was deleted.
  unfoldable pub any_changes : Bool → Call W Bool
  any_changes false w = (false, w)
  any_changes true w = (ltb_ℤ (pos 0) (sq.changes w), w)

  -- `sqlite_delete_file`; the returns of -1 and of 1 are both `false`.
  unfoldable pub sqlite_delete_file : ℤ → Call W Bool
  unfolding any_changes
  sqlite_delete_file id = do
    ok ← run_once sq (codes "DELETE FROM files WHERE id = ?") (bound_int id ∷ [])
    any_changes ok
