-- ===== src/Postgres/Open.antt =====
-- `postgres_open` and the table of functions, src/db/db_postgres.c.
use kaufbot.Prelude.{Bool, true, false, List, [], ◌++◌, Call, pure, ◌>>=◌, ◌>>◌}
use kaufbot.CText.{Text, codes, copy_to}
use kaufbot.Backend.{FileRecord, DbBackend}
use kaufbot.Postgres.Defs.{Libpq, PgStatus, tuples_ok, command_ok, other_status, then_clear}
use kaufbot.Postgres.Queries.{
  postgres_find_by_hash, postgres_find_by_id, postgres_get_parsed_receipt, postgres_list,
  postgres_get_prompts,
}
use kaufbot.Postgres.Changes.{
  postgres_insert, postgres_mark_ocr_done, postgres_mark_parsing_done, postgres_update_prompt,
  postgres_delete_file,
}

-- The tables and their indices.
abbrev pub pg_schema : Text
pg_schema =
    codes "CREATE TABLE IF NOT EXISTS files (  id                 BIGSERIAL PRIMARY KEY,"
    ++ (codes "  original_file_name TEXT    NOT NULL,  file_size_bytes    BIGINT  NOT NULL,"
        ++ (codes
              "  saved_file_name    TEXT    NOT NULL UNIQUE,  file_hash          TEXT    NOT NULL UNIQUE,"
            ++ (codes
                  "  is_ocr_processed   BOOLEAN NOT NULL DEFAULT FALSE,  ocr_file_name      TEXT    NOT NULL DEFAULT '',"
                ++ (codes
                      "  created_at         TIMESTAMPTZ NOT NULL DEFAULT NOW(),  updated_at         TIMESTAMPTZ NOT NULL DEFAULT NOW()"
                    ++ (codes
                          ");CREATE TABLE IF NOT EXISTS parsed_receipts (  id           BIGSERIAL PRIMARY KEY,"
                        ++ (codes
                              "  file_id      BIGINT NOT NULL UNIQUE REFERENCES files(id) ON DELETE CASCADE,  parsed_json  JSONB  NOT NULL,"
                            ++ (codes
                                  "  created_at   TIMESTAMPTZ NOT NULL DEFAULT NOW(),  updated_at   TIMESTAMPTZ NOT NULL DEFAULT NOW());"
                                ++ (codes
                                      "CREATE INDEX IF NOT EXISTS idx_files_hash ON files(file_hash);"
                                    ++ (codes
                                          "CREATE INDEX IF NOT EXISTS idx_parsed_file_id ON parsed_receipts(file_id);CREATE TABLE IF NOT EXISTS prompts ("
                                        ++ (codes
                                              "  id         BIGSERIAL PRIMARY KEY,  name       TEXT        NOT NULL UNIQUE,"
                                            ++ (codes
                                                  "  content    TEXT        NOT NULL DEFAULT '',  created_at TIMESTAMPTZ NOT NULL DEFAULT NOW(),"
                                                ++ (codes
                                                    "  updated_at TIMESTAMPTZ NOT NULL DEFAULT NOW());CREATE INDEX IF NOT EXISTS idx_prompts_name ON prompts(name);"))))))))))))

-- The two prompts that an empty table is given.
abbrev pub seed_ocr : Text
seed_ocr =
    codes "INSERT INTO prompts (name, content) SELECT 'ocr',"
    ++ (codes "  'Extract ALL text from this image or document. This document is a receipt from one"
        ++ (codes
              " of the well-know german supermarkets. Preserve the original layout and formatting as closely as possible."
            ++ (codes
                  " Items on the same line in the image/pdf should stay on the same line in the output text."
                ++ (codes
                      " If the line starts with the blank text - use spaces to align text with the text position on the image/document."
                    ++ (codes
                          " If there is no text, respond with: [NO TEXT FOUND]. Output only the extracted text, nothing else.'"
                        ++ (codes
                            " WHERE NOT EXISTS (SELECT 1 FROM prompts) ON CONFLICT (name) DO NOTHING;"))))))

abbrev pub seed_parser : Text
seed_parser =
    codes "INSERT INTO prompts (name, content) SELECT 'parser',"
    ++ (codes "  'You are an expert German supermarket receipt parsing tool. You are given text"
        ++ (codes " extracted from a receipt photo via OCR. The layout is important, as item"
            ++ (codes " descriptions often span multiple lines."
                ++ (codes
                      " Your task is to extract the data and return it strictly as a JSON document"
                    ++ (codes
                          " matching the schema below. Return ONLY the raw JSON.' || ' Extraction Rules:"
                        ++ (codes
                              " Multi-line Items: Merge wrapped lines into a single original_name."
                            ++ (codes
                                  " Translation: Provide an accurate English translation. Categorization: Assign a broad category and sub_category."
                                ++ (codes
                                      " Amounts and Units: Default to 1 if not stated. Extract unit from name."
                                    ++ (codes
                                          " Discounts: Include discount amount if shown (AKTION, RABATT, etc). null if none."
                                        ++ (codes
                                              " is_receipt: true if valid receipt, false if not. image_quality: 0-100 percent (100=perfect OCR, 0=unreadable)."
                                            ++ (codes
                                                  " reported_item_count: number stated on receipt, or null."
                                                ++ (codes
                                                      " Other Info: Group remaining data into the other object.' || ' JSON Schema: {is_receipt,image_quality:0-100,"
                                                    ++ (codes
                                                          " store_information:{name,address}, line_items:[{id,original_name,english_translation,category,sub_category,"
                                                        ++ (codes
                                                            " price,discount,tax_group,amount,unit_of_measure}], total_sum,reported_item_count,"
                                                            ++ (codes
                                                            " other:{date,time,receipt_number,payment_method,tax_details,card_details, raw_unmapped_text}}'"
                                                            ++ (codes
                                                            " WHERE NOT EXISTS (SELECT 1 FROM prompts WHERE name='parser') ON CONFLICT (name) DO NOTHING;"))))))))))))))))

-- The connection string.
unfoldable pub conninfo : (host port name user password ssl_mode : Text) → Text
conninfo host port name user password ssl_mode = copy_to 2048 (
    codes "host="
    ++ (host
        ++ (codes " port="
            ++ (port
                ++ (codes " dbname="
                    ++ (name
                        ++ (codes " user="
                            ++ (user
                                ++ (codes " password="
                                    ++ (password ++ (codes " sslmode=" ++ ssl_mode)))))))))))

is_executed : PgStatus → Bool
is_executed tuples_ok = true
is_executed command_ok = true
is_executed other_status = false

module _ {W : Type 0} (pq : Libpq W) where
  -- `db_exec`
  unfoldable pub pg_exec : Text → Call W Bool
  unfolding then_clear is_executed
  pg_exec sql = do res ← pq.exec_params sql []; then_clear pq res λ w. is_executed (pq.status res w)

  -- The two prompts; the results of their statements are not kept.
  unfoldable pub after_schema : Bool → Call W Bool
  after_schema false = do pq.finish; pure false
  after_schema true = do pq.exec_params seed_ocr []; pq.exec_params seed_parser []; pure true

  unfoldable pub after_connect : Bool → Call W Bool
  unfolding pg_exec after_schema
  after_connect false = do pq.finish; pure false
  after_connect true = do ok ← pg_exec pg_schema; after_schema ok

  -- `postgres_open`; `false` is a NULL backend.
  unfoldable pub postgres_open : (host port name user password ssl_mode : Text) → Call W Bool
  unfolding conninfo after_connect
  postgres_open host port name user password ssl_mode = do
    ok ← pq.connect (conninfo host port name user password ssl_mode)
    after_connect ok

  listed_rows : List FileRecord × Bool → List FileRecord
  listed_rows r = r.0

  -- `postgres_ops`
  unfoldable pub postgres_ops : DbBackend W
  unfolding listed_rows
  postgres_ops = record {
    find_by_hash = postgres_find_by_hash pq;
    find_by_id = postgres_find_by_id pq;
    insert = postgres_insert pq;
    mark_ocr_done = postgres_mark_ocr_done pq;
    mark_parsing_done = postgres_mark_parsing_done pq;
    get_parsed_receipt = postgres_get_parsed_receipt pq;
    list = do
      r ← postgres_list pq
      pure (listed_rows r);
    get_prompts = postgres_get_prompts pq;
    update_prompt = postgres_update_prompt pq;
    delete_file = postgres_delete_file pq;
  }
