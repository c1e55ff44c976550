-- ===== src/Postgres/Queries.antt =====
-- The queries of src/db/db_postgres.c.
use kaufbot.Prelude.{ℕ, Bool, List, [], ◌∷◌, ◌++◌, ℤ, Call}
use kaufbot.CText.{Text, codes}
use kaufbot.Backend.{
  FileRecord, ParsedReceipt, Prompt, Found, db_json_len, db_date_len, db_prompt_name_len,
  db_prompt_content_len,
}
use kaufbot.Postgres.Defs.{
  Libpq, id_str, select_file_columns, value_copy, value_number, file_tuple, select_one, select_all,
}

module _ {W : Type 0} (pq : Libpq W) where
  -- `postgres_find_by_hash`
  unfoldable pub postgres_find_by_hash : Text → Call W (Found FileRecord)
  unfolding select_one
  postgres_find_by_hash hash =
      select_one pq (select_file_columns ++ codes " FROM files WHERE file_hash = $1 LIMIT 1")
        (hash ∷ []) (file_tuple pq)

  -- `postgres_find_by_id`
  unfoldable pub postgres_find_by_id : ℤ → Call W (Found FileRecord)
  unfolding select_one id_str
  postgres_find_by_id id =
      select_one pq (select_file_columns ++ codes " FROM files WHERE id = $1 LIMIT 1")
        (id_str id ∷ []) (file_tuple pq)

  unfoldable pub receipt_tuple : pq.Res → ℕ → W → ParsedReceipt
  unfolding value_copy value_number
  receipt_tuple res row w = record {
    id = value_number pq res row 0 w;
    file_id = value_number pq res row 1 w;
    parsed_json = value_copy pq res row 2 db_json_len w;
  }

  -- `postgres_get_parsed_receipt`
  unfoldable pub postgres_get_parsed_receipt : ℤ → Call W (Found ParsedReceipt)
  unfolding select_one receipt_tuple id_str
  postgres_get_parsed_receipt file_id =
      select_one pq
        (codes
            "SELECT id, file_id, parsed_json::text,       to_char(created_at, 'YYYY-MM-DD\"T\"HH24:MI:SS\"Z\"'),"
          ++ (codes
              "       to_char(updated_at, 'YYYY-MM-DD\"T\"HH24:MI:SS\"Z\"') FROM parsed_receipts WHERE file_id = $1 LIMIT 1"))
        (id_str file_id ∷ []) receipt_tuple

  -- `postgres_list`
  unfoldable pub postgres_list : Call W (List FileRecord × Bool)
  unfolding select_all
  postgres_list =
      select_all pq (select_file_columns ++ codes " FROM files ORDER BY created_at DESC")
        (file_tuple pq)

  unfoldable pub prompt_tuple : pq.Res → ℕ → W → Prompt
  unfolding value_copy value_number
  prompt_tuple res row w = record {
    id = value_number pq res row 0 w;
    name = value_copy pq res row 1 db_prompt_name_len w;
    content = value_copy pq res row 2 db_prompt_content_len w;
    created_at = value_copy pq res row 3 db_date_len w;
    updated_at = value_copy pq res row 4 db_date_len w;
  }

  -- `postgres_get_prompts`
  unfoldable pub postgres_get_prompts : Call W (List Prompt × Bool)
  unfolding select_all prompt_tuple
  postgres_get_prompts =
      select_all pq
        (codes
            "SELECT id, name, content,       to_char(created_at, 'YYYY-MM-DD\"T\"HH24:MI:SS\"Z\"'),"
          ++ (codes
              "       to_char(updated_at, 'YYYY-MM-DD\"T\"HH24:MI:SS\"Z\"') FROM prompts ORDER BY name"))
        prompt_tuple
