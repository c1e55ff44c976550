-- ===== src/Sqlite/Lists.antt =====
-- `sqlite_list` and `sqlite_get_prompts`, src/db/db_sqlite.c.
use kaufbot.Prelude.{ℕ, zero, suc, Bool, true, false, List, [], ◌∷◌, ◌++◌, Call, pure, ◌>>=◌, ◌>>◌}
use kaufbot.CText.{Text, codes}
use kaufbot.Backend.{FileRecord, Prompt, db_date_len, db_prompt_name_len, db_prompt_content_len}
use kaufbot.Sqlite.Defs.{
  Sqlite, Stepped, step_row, step_done, step_error, prepared, select_files, column_copy, file_row,
}

module _ {W : Type 0} (sq : Sqlite W) where
  -- The loop over the rows: those that the callback is given, in their order, and the code that
  -- ended it. The fuel is a bound on the number of steps.
  unfoldable pub row_behind :
      {A : Type 0}
      → (sq.Stmt → W → A)
      → Call W (List A × Stepped)
      → sq.Stmt
      → Stepped
      → Call W (List A × Stepped)
  row_behind row rest stmt step_done w = (([], step_done), w)
  row_behind row rest stmt step_error w = (([], step_error), w)
  row_behind row rest stmt step_row w =
      let out = row stmt w in let ((rows, rc), w') = rest w in ((out ∷ rows, rc), w')

  unfoldable pub fetch_rows :
      {A : Type 0} → ℕ → (sq.Stmt → W → A) → sq.Stmt → Call W (List A × Stepped)
  unfolding row_behind
  fetch_rows zero row stmt = pure ([], step_row)
  fetch_rows (suc fuel) row stmt = do
    rc ← sq.step stmt
    row_behind row (fetch_rows fuel row stmt) stmt rc

  -- A query for all rows, and whether it returns 0.
  unfoldable pub query_all : {A : Type 0} → ℕ → Text → (sq.Stmt → W → A) → Call W (List A × Bool)
  unfolding prepared fetch_rows
  query_all fuel sql row =
      prepared sq sql ([], false)
        λ stmt. do
          r ← fetch_rows fuel row stmt
          sq.finalize stmt
          pure (r.0, elim r.1 [ step_row ↦ false | step_done ↦ true | step_error ↦ false ])

  -- `sqlite_list`
  unfoldable pub sqlite_list : ℕ → Call W (List FileRecord × Bool)
  unfolding query_all file_row
  sqlite_list fuel =
      query_all fuel (select_files ++ codes " ORDER BY created_at DESC") (file_row sq)

  unfoldable pub prompt_row : sq.Stmt → W → Prompt
  unfolding column_copy
  prompt_row stmt w = record {
    id = sq.column_int64 stmt 0 w;
    name = column_copy sq stmt 1 db_prompt_name_len w;
    content = column_copy sq stmt 2 db_prompt_content_len w;
    created_at = column_copy sq stmt 3 db_date_len w;
    updated_at = column_copy sq stmt 4 db_date_len w;
  }

  -- `sqlite_get_prompts`
  unfoldable pub sqlite_get_prompts : ℕ → Call W (List Prompt × Bool)
  unfolding query_all prompt_row
  sqlite_get_prompts fuel =
      query_all fuel
        (codes "SELECT id, name, content, created_at, updated_at"
          ++ codes " FROM prompts ORDER BY name")
        prompt_row
