-- ===== src/Postgres/Changes.antt =====
-- The statements of src/db/db_postgres.c that change a table.
use kaufbot.Prelude.{
  Bool, true, false, Option, none, some, [], ◌∷◌, ◌++◌, ℤ, pos, ltb_ℤ, Call, ◌>>=◌,
}
use kaufbot.CText.{Text, codes, copy_to}
use kaufbot.CText.Decimal.{leading_number}
use kaufbot.Backend.{FileRecord, db_date_len}
use kaufbot.Postgres.Defs.{
  Libpq, PgStatus, tuples_ok, command_ok, other_status, id_str, value_number, then_clear, command,
}

flag_str : Bool → Text
flag_str true = codes "1"
flag_str false = codes "0"

module _ {W : Type 0} (pq : Libpq W) where
  -- The record with what the database has given it.
  returned : FileRecord → Text → pq.Res → PgStatus → W → Option FileRecord
  unfolding value_number
  returned rec now res tuples_ok w = some (record rec {
    id = value_number pq res 0 0 w;
    created_at = copy_to db_date_len now;
    updated_at = copy_to db_date_len now;
  })
  returned rec now res command_ok w = none
  returned rec now res other_status w = none

  -- `postgres_insert`
  unfoldable pub postgres_insert : FileRecord → Call W (Option FileRecord)
  unfolding returned then_clear id_str flag_str
  postgres_insert rec = do
    now ← pq.now_iso8601
    res ←
        pq.exec_params
          (codes
              "INSERT INTO files (original_file_name, file_size_bytes, saved_file_name, file_hash,"
            ++ (codes
                "  is_ocr_processed, ocr_file_name, created_at, updated_at) VALUES ($1, $2, $3, $4, $5, $6, $7, $8) RETURNING id"))
          (rec.original_file_name
            ∷ id_str rec.file_size_bytes
            ∷ rec.saved_file_name
            ∷ rec.file_hash
            ∷ flag_str rec.is_ocr_processed
            ∷ rec.ocr_file_name
            ∷ now
            ∷ now
            ∷ [])
    then_clear pq res λ w. returned rec now res (pq.status res w) w

  -- `postgres_mark_ocr_done`
  unfoldable pub postgres_mark_ocr_done : ℤ → Text → Call W Bool
  unfolding id_str
  postgres_mark_ocr_done id ocr_file_name =
      command pq
        (codes
          "UPDATE files SET is_ocr_processed=TRUE, ocr_file_name=$1, updated_at=NOW() WHERE id=$2")
        (ocr_file_name ∷ id_str id ∷ [])

  -- `postgres_mark_parsing_done`
  unfoldable pub postgres_mark_parsing_done : ℤ → Text → Call W Bool
  unfolding id_str
  postgres_mark_parsing_done file_id parsed_json =
      command pq
        (codes
            "INSERT INTO parsed_receipts (file_id, parsed_json, created_at, updated_at) VALUES ($1, $2::jsonb, NOW(), NOW())"
          ++ (codes
              " ON CONFLICT (file_id) DO UPDATE SET parsed_json = $2::jsonb, updated_at = NOW()"))
        (id_str file_id ∷ parsed_json ∷ [])

  -- `postgres_update_prompt`
  unfoldable pub postgres_update_prompt : ℤ → Text → Call W Bool
  unfolding id_str
  postgres_update_prompt id content =
      command pq (codes "UPDATE prompts SET content=$1, updated_at=NOW() WHERE id=$2")
        (content ∷ id_str id ∷ [])

  any_affected : pq.Res → PgStatus → W → Bool
  any_affected res command_ok w = ltb_ℤ (pos 0) (leading_number (pq.cmd_tuples res w))
  any_affected res tuples_ok w = false
  any_affected res other_status w = false

  -- `postgres_delete_file`; the returns of -1 and of 1 are both `false`.
  unfoldable pub postgres_delete_file : ℤ → Call W Bool
  unfolding any_affected then_clear id_str
  postgres_delete_file id = do
    res ← pq.exec_params (codes "DELETE FROM files WHERE id = $1") (id_str id ∷ [])
    then_clear pq res λ w. any_affected res (pq.status res w) w
