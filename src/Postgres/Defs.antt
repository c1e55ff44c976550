-- ===== src/Postgres/Defs.antt =====
-- libpq, as far as src/db/db_postgres.c calls it, and what its functions have in common.
use kaufbot.Prelude.{ℕ, zero, suc, Bool, true, false, List, [], ◌∷◌, ◌++◌, ℤ, Call, ◌>>=◌}
use kaufbot.CText.{Text, codes, copy_to, text_eq}
use kaufbot.CText.Decimal.{show_ℤ, leading_number}
use kaufbot.Backend.{
  FileRecord, Found, found, missing, failed, db_ocr_filename_len, db_hash_len, db_filename_len,
  db_orig_name_len, db_date_len,
}

-- The result of `PQresultStatus`: `PGRES_TUPLES_OK`, `PGRES_COMMAND_OK`, or any other status.
pub data PgStatus : Type 0 where
  tuples_ok command_ok other_status : PgStatus

-- The functions of libpq-fe.h, with the connection in the world, and the clock. What a result holds
-- is read without a change. `exec_params` without parameters is `PQexec`; `connect` is `PQconnectdb`
-- with the test of `PQstatus`.
pub record Libpq (W : Type 0) : Type 1 where
  pub Res : Type 0
  pub connect : Text → Call W Bool
  pub finish : Call W (Unit {0})
  pub exec_params : Text → List Text → Call W Res
  pub status : Res → W → PgStatus
  pub ntuples : Res → W → ℕ
  pub getvalue : Res → ℕ → ℕ → W → Text
  pub cmd_tuples : Res → W → Text
  pub clear : Res → Call W (Unit {0})
  pub now_iso8601 : Call W Text

-- `snprintf(id_str, sizeof(id_str), "%lld", (long long)id)`
unfoldable pub id_str : ℤ → Text
id_str id = copy_to 32 (show_ℤ id)

-- The columns of the table of files that its three queries select.
abbrev pub select_file_columns : Text
select_file_columns =
    codes "SELECT id, original_file_name, file_size_bytes, saved_file_name,"
    ++ (codes
          "       file_hash, is_ocr_processed, ocr_file_name,       to_char(created_at, 'YYYY-MM-DD\"T\"HH24:MI:SS\"Z\"'),"
        ++ (codes "       to_char(updated_at, 'YYYY-MM-DD\"T\"HH24:MI:SS\"Z\"')"))

module _ {W : Type 0} (pq : Libpq W) where
  -- `snprintf(out, size, "%s", PQgetvalue(res, row, n))`
  unfoldable pub value_copy : pq.Res → ℕ → ℕ → ℕ → W → Text
  value_copy res row n size w = copy_to size (pq.getvalue res row n w)

  -- `strtoll(PQgetvalue(res, row, n), NULL, 10)`
  unfoldable pub value_number : pq.Res → ℕ → ℕ → W → ℤ
  value_number res row n w = leading_number (pq.getvalue res row n w)

  unfoldable pub file_tuple : pq.Res → ℕ → W → FileRecord
  unfolding value_copy value_number
  file_tuple res row w = record {
    id = value_number res row 0 w;
    original_file_name = value_copy res row 1 db_orig_name_len w;
    file_size_bytes = value_number res row 2 w;
    saved_file_name = value_copy res row 3 db_filename_len w;
    file_hash = value_copy res row 4 db_hash_len w;
    is_ocr_processed = text_eq (pq.getvalue res row 5 w) (codes "t");
    ocr_file_name = value_copy res row 6 db_ocr_filename_len w;
    created_at = value_copy res row 7 db_date_len w;
    updated_at = value_copy res row 8 db_date_len w;
  }

  -- A value that is read off a result, which is cleared then.
  unfoldable pub then_clear : {A : Type 0} → pq.Res → (W → A) → Call W A
  then_clear res out w = (out w, (pq.clear res w).1)

  unfoldable pub first_or_missing : {A : Type 0} → (pq.Res → ℕ → W → A) → pq.Res → ℕ → W → Found A
  first_or_missing row res zero w = missing
  first_or_missing row res (suc n) w = found (row res 0 w)

  unfoldable pub tuple_found : {A : Type 0} → (pq.Res → ℕ → W → A) → pq.Res → PgStatus → W → Found A
  unfolding first_or_missing
  tuple_found row res tuples_ok w = first_or_missing row res (pq.ntuples res w) w
  tuple_found row res command_ok w = failed
  tuple_found row res other_status w = failed

  -- A query for one row.
  unfoldable pub select_one :
      {A : Type 0} → Text → List Text → (pq.Res → ℕ → W → A) → Call W (Found A)
  unfolding then_clear tuple_found
  select_one sql params row = do
    res ← pq.exec_params sql params
    then_clear res λ w. tuple_found row res (pq.status res w) w

  is_command_ok : PgStatus → Bool
  is_command_ok tuples_ok = false
  is_command_ok command_ok = true
  is_command_ok other_status = false

  -- A statement that returns no rows: whether it went well.
  unfoldable pub command : Text → List Text → Call W Bool
  unfolding then_clear is_command_ok
  command sql params = do
    res ← pq.exec_params sql params
    then_clear res λ w. is_command_ok (pq.status res w)

  -- The rows from the `i`-th on, of which `n` are left.
  unfoldable pub rows_from : {A : Type 0} → (pq.Res → ℕ → W → A) → pq.Res → ℕ → ℕ → W → List A
  rows_from row res zero i w = []
  rows_from row res (suc n) i w = row res i w ∷ rows_from row res n (suc i) w

  unfoldable pub all_tuples :
      {A : Type 0} → (pq.Res → ℕ → W → A) → pq.Res → PgStatus → W → List A × Bool
  unfolding rows_from
  all_tuples row res tuples_ok w = (rows_from row res (pq.ntuples res w) 0 w, true)
  all_tuples row res command_ok w = ([], false)
  all_tuples row res other_status w = ([], false)

  -- A query for all rows, and whether it returns 0.
  unfoldable pub select_all : {A : Type 0} → Text → (pq.Res → ℕ → W → A) → Call W (List A × Bool)
  unfolding then_clear all_tuples
  select_all sql row = do
    res ← pq.exec_params sql []
    then_clear res λ w. all_tuples row res (pq.status res w) w
