-- ===== src/Sqlite/Defs.antt =====
-- SQLite, as far as src/db/db_sqlite.c calls it, and what its functions have in common.
use kaufbot.Prelude.{
  ℕ, suc, Bool, true, false, Option, none, some, List, [], ◌∷◌, ◌++◌, ℤ, pos, Call, pure, ◌>>=◌,
  ◌>>◌, eq_ℤ, not,
}
use kaufbot.CText.{Text, codes, copy_to}
use kaufbot.Backend.{
  FileRecord, Found, found, missing, failed, db_ocr_filename_len, db_hash_len, db_filename_len,
  db_orig_name_len, db_date_len,
}

-- The result of `sqlite3_step`: `SQLITE_ROW`, `SQLITE_DONE`, or any other code.
pub data Stepped : Type 0 where
  step_row step_done step_error : Stepped

-- The functions of sqlite3.h, with the connection in the world, and the clock. A column of a row
-- is read without a change.
pub record Sqlite (W : Type 0) : Type 1 where
  pub Stmt : Type 0
  pub open_db : Text → Call W Bool
  pub close_db : Call W (Unit {0})
  pub exec : Text → Call W Bool
  pub prepare : Text → Call W (Option Stmt)
  pub bind_text : Stmt → ℕ → Text → Call W (Unit {0})
  pub bind_int64 : Stmt → ℕ → ℤ → Call W (Unit {0})
  pub step : Stmt → Call W Stepped
  pub column_int64 : Stmt → ℕ → W → ℤ
  pub column_text : Stmt → ℕ → W → Text
  pub finalize : Stmt → Call W (Unit {0})
  pub last_insert_rowid : W → ℤ
  pub changes : W → ℤ
  -- `now_iso8601`: `time`, `gmtime` and `strftime`
  pub now_iso8601 : Call W Text

-- A value that is bound to a parameter.
pub data Bound : Type 0 where
  bound_text : Text → Bound
  bound_int : ℤ → Bound

abbrev pub flag_int : Bool → ℤ
flag_int true = pos 1
flag_int false = pos 0

-- The columns of the table of files that its three queries select.
abbrev pub select_files : Text
select_files =
    codes "SELECT id, original_file_name, file_size_bytes, saved_file_name,"
    ++ (codes "       file_hash, is_ocr_processed, ocr_file_name, created_at, updated_at"
        ++ codes " FROM files")

module _ {W : Type 0} (sq : Sqlite W) where
  -- The rest of a function behind `sqlite3_prepare_v2`, and what it returns if that fails.
  unfoldable pub with_stmt : {A : Type 0} → A → (sq.Stmt → Call W A) → Option sq.Stmt → Call W A
  with_stmt failure body none = pure failure
  with_stmt failure body (some stmt) = body stmt

  unfoldable pub prepared : {A : Type 0} → Text → A → (sq.Stmt → Call W A) → Call W A
  unfolding with_stmt
  prepared sql failure body = do stmt ← sq.prepare sql; with_stmt failure body stmt

  unfoldable pub bind_one : sq.Stmt → ℕ → Bound → Call W (Unit {0})
  bind_one stmt n (bound_text t) = sq.bind_text stmt n t
  bind_one stmt n (bound_int z) = sq.bind_int64 stmt n z

  -- The calls that bind the parameters, from the `n`-th on.
  unfoldable pub bind_from : sq.Stmt → ℕ → List Bound → Call W (Unit {0})
  unfolding bind_one
  bind_from stmt n [] = pure tt
  bind_from stmt n (b ∷ bs) = do bind_one stmt n b; bind_from stmt (suc n) bs

  unfoldable pub bind_all : sq.Stmt → List Bound → Call W (Unit {0})
  unfolding bind_from
  bind_all stmt bs = bind_from stmt 1 bs

  -- `snprintf(out, size, "%s", sqlite3_column_text(stmt, n))`
  unfoldable pub column_copy : sq.Stmt → ℕ → ℕ → W → Text
  column_copy stmt n size w = copy_to size (sq.column_text stmt n w)

  -- The record of a row of the table of files.
  unfoldable pub file_row : sq.Stmt → W → FileRecord
  unfolding column_copy
  file_row stmt w = record {
    id = sq.column_int64 stmt 0 w;
    original_file_name = column_copy stmt 1 db_orig_name_len w;
    file_size_bytes = sq.column_int64 stmt 2 w;
    saved_file_name = column_copy stmt 3 db_filename_len w;
    file_hash = column_copy stmt 4 db_hash_len w;
    is_ocr_processed = not (eq_ℤ (sq.column_int64 stmt 5 w) (pos 0));
    ocr_file_name = column_copy stmt 6 db_ocr_filename_len w;
    created_at = column_copy stmt 7 db_date_len w;
    updated_at = column_copy stmt 8 db_date_len w;
  }

  -- What a query for one row returns behind the step, with the statement finalized on each branch.
  unfoldable pub first_row : {A : Type 0} → (sq.Stmt → W → A) → sq.Stmt → Stepped → Call W (Found A)
  first_row row stmt step_done w = (missing, (sq.finalize stmt w).1)
  first_row row stmt step_error w = (failed, (sq.finalize stmt w).1)
  first_row row stmt step_row w = (found (row stmt w), (sq.finalize stmt w).1)

  -- A query for one row.
  unfoldable pub query_one : {A : Type 0} → Text → List Bound → (sq.Stmt → W → A) → Call W (Found A)
  unfolding prepared bind_all first_row
  query_one sql values row =
      prepared sql failed λ stmt. do bind_all stmt values; rc ← sq.step stmt; first_row row stmt rc

  -- A statement that is run once: whether the step ended it.
  unfoldable pub run_once : Text → List Bound → Call W Bool
  unfolding prepared bind_all
  run_once sql values = prepared sql false λ stmt. do
    bind_all stmt values
    rc ← sq.step stmt
    sq.finalize stmt
    pure (elim rc [ step_row ↦ false | step_done ↦ true | step_error ↦ false ])
