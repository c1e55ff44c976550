-- ===== src/Sqlite/Queries.antt =====
-- `sqlite_find_by_hash` and `sqlite_find_by_id`, src/db/db_sqlite.c.
use kaufbot.Prelude.{[], ◌∷◌, ◌++◌, ℤ, Call}
use kaufbot.CText.{Text, codes}
use kaufbot.Backend.{FileRecord, Found}
use kaufbot.Sqlite.Defs.{Sqlite, bound_text, bound_int, select_files, file_row, query_one}

module _ {W : Type 0} (sq : Sqlite W) where
  -- `sqlite_find_by_hash`
  unfoldable pub sqlite_find_by_hash : Text → Call W (Found FileRecord)
  unfolding query_one
  sqlite_find_by_hash hash =
      query_one sq (select_files ++ codes " WHERE file_hash = ? LIMIT 1") (bound_text hash ∷ [])
        (file_row sq)

  -- `sqlite_find_by_id`
  unfoldable pub sqlite_find_by_id : ℤ → Call W (Found FileRecord)
  unfolding query_one
  sqlite_find_by_id id =
      query_one sq (select_files ++ codes " WHERE id = ? LIMIT 1") (bound_int id ∷ []) (file_row sq)
