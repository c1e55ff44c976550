-- ===== src/Sqlite/Receipts.antt =====
-- `sqlite_mark_parsing_done` and `sqlite_get_parsed_receipt`, src/db/db_sqlite.c.
use kaufbot.Prelude.{
  Bool, true, false, Option, none, some, [], ◌∷◌, ◌++◌, ℤ, Call, pure, ◌>>=◌, ◌>>◌,
}
use kaufbot.CText.{Text, codes}
use kaufbot.Backend.{ParsedReceipt, Found, db_json_len}
use kaufbot.Sqlite.Defs.{
  Sqlite, step_row, step_done, step_error, bound_text, bound_int, prepared, bind_all, column_copy,
  query_one, run_once,
}

module _ {W : Type 0} (sq : Sqlite W) where
  -- `sqlite_check_parsed_exists`; `none` is the return of -1.
  unfoldable pub sqlite_check_parsed_exists : ℤ → Call W (Option Bool)
  unfolding prepared bind_all
  sqlite_check_parsed_exists file_id =
      prepared sq (codes "SELECT id FROM parsed_receipts WHERE file_id = ?") none λ stmt. do
        bind_all sq stmt (bound_int file_id ∷ [])
        rc ← sq.step stmt
        sq.finalize stmt
        pure (some (elim rc [ step_row ↦ true | step_done ↦ false | step_error ↦ false ]))

  -- `sqlite_update_parsed`
  unfoldable pub sqlite_update_parsed : ℤ → Text → Text → Call W Bool
  sqlite_update_parsed file_id parsed_json now =
      run_once sq (codes "UPDATE parsed_receipts SET parsed_json=?, updated_at=? WHERE file_id=?")
        (bound_text parsed_json ∷ bound_text now ∷ bound_int file_id ∷ [])

  -- `sqlite_insert_parsed`
  unfoldable pub sqlite_insert_parsed : ℤ → Text → Text → Call W Bool
  sqlite_insert_parsed file_id parsed_json now =
      run_once sq
        (codes "INSERT INTO parsed_receipts (file_id, parsed_json, created_at, updated_at)"
          ++ codes " VALUES (?, ?, ?, ?)")
        (bound_int file_id ∷ bound_text parsed_json ∷ bound_text now ∷ bound_text now ∷ [])

  unfoldable pub store_parsed : ℤ → Text → Text → Option Bool → Call W Bool
  unfolding sqlite_update_parsed sqlite_insert_parsed
  store_parsed file_id parsed_json now none = pure false
  store_parsed file_id parsed_json now (some true) = sqlite_update_parsed file_id parsed_json now
  store_parsed file_id parsed_json now (some false) = sqlite_insert_parsed file_id parsed_json now

  -- `sqlite_mark_parsing_done`
  unfoldable pub sqlite_mark_parsing_done : ℤ → Text → Call W Bool
  unfolding sqlite_check_parsed_exists store_parsed
  sqlite_mark_parsing_done file_id parsed_json = do
    now ← sq.now_iso8601
    exists ← sqlite_check_parsed_exists file_id
    store_parsed file_id parsed_json now exists

  unfoldable pub receipt_row : sq.Stmt → W → ParsedReceipt
  unfolding column_copy
  receipt_row stmt w = record {
    id = sq.column_int64 stmt 0 w;
    file_id = sq.column_int64 stmt 1 w;
    parsed_json = column_copy sq stmt 2 db_json_len w;
  }

  -- `sqlite_get_parsed_receipt`
  unfoldable pub sqlite_get_parsed_receipt : ℤ → Call W (Found ParsedReceipt)
  unfolding query_one receipt_row
  sqlite_get_parsed_receipt file_id =
      query_one sq
        (codes "SELECT id, file_id, parsed_json, created_at, updated_at"
          ++ codes " FROM parsed_receipts WHERE file_id = ? LIMIT 1")
        (bound_int file_id ∷ []) receipt_row
