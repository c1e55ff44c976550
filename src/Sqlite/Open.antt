-- ===== src/Sqlite/Open.antt =====
-- `sqlite_open` and the table of functions, src/db/db_sqlite.c.
use kaufbot.Prelude.{ℕ, Bool, true, false, List, [], ◌∷◌, ◌++◌, Call, pure, ◌>>=◌, ◌>>◌}
use kaufbot.CText.{Text, codes}
use kaufbot.Backend.{FileRecord, DbBackend}
use kaufbot.Sqlite.Defs.{Sqlite}
use kaufbot.Sqlite.Queries.{sqlite_find_by_hash, sqlite_find_by_id}
use kaufbot.Sqlite.Changes.{
  sqlite_insert, sqlite_mark_ocr_done, sqlite_update_prompt, sqlite_delete_file,
}
use kaufbot.Sqlite.Receipts.{sqlite_mark_parsing_done, sqlite_get_parsed_receipt}
use kaufbot.Sqlite.Lists.{sqlite_list, sqlite_get_prompts}

-- The tables and their indices.
abbrev pub schema : Text
schema =
    codes
      "CREATE TABLE IF NOT EXISTS files (  id                 INTEGER PRIMARY KEY AUTOINCREMENT,"
    ++ (codes "  original_file_name TEXT    NOT NULL,  file_size_bytes    INTEGER NOT NULL,"
        ++ (codes
              "  saved_file_name    TEXT    NOT NULL UNIQUE,  file_hash          TEXT    NOT NULL UNIQUE,"
            ++ (codes
                  "  is_ocr_processed   INTEGER NOT NULL DEFAULT 0,  ocr_file_name      TEXT    NOT NULL DEFAULT '',"
                ++ (codes
                      "  created_at         TEXT    NOT NULL,  updated_at         TEXT    NOT NULL);"
                    ++ (codes
                          "CREATE TABLE IF NOT EXISTS parsed_receipts (  id           INTEGER PRIMARY KEY AUTOINCREMENT,"
                        ++ (codes
                              "  file_id      INTEGER NOT NULL UNIQUE,  parsed_json  TEXT    NOT NULL,  created_at   TEXT    NOT NULL,"
                            ++ (codes
                                  "  updated_at   TEXT    NOT NULL,  FOREIGN KEY (file_id) REFERENCES files(id) ON DELETE CASCADE);"
                                ++ (codes
                                      "CREATE INDEX IF NOT EXISTS idx_files_hash ON files(file_hash);"
                                    ++ (codes
                                          "CREATE INDEX IF NOT EXISTS idx_parsed_file_id ON parsed_receipts(file_id);CREATE TABLE IF NOT EXISTS prompts ("
                                        ++ (codes
                                              "  id         INTEGER PRIMARY KEY AUTOINCREMENT,  name       TEXT    NOT NULL UNIQUE,"
                                            ++ (codes
                                                  "  content    TEXT    NOT NULL DEFAULT '',  created_at TEXT    NOT NULL,  updated_at TEXT    NOT NULL);"
                                                ++ (codes
                                                    "CREATE INDEX IF NOT EXISTS idx_prompts_name ON prompts(name);"))))))))))))

-- The two prompts that an empty table is given.
abbrev pub seed : Text
seed =
    codes "INSERT OR IGNORE INTO prompts (name, content, created_at, updated_at) SELECT 'ocr',"
    ++ (codes "  'Extract ALL text from this image or document. This document is a receipt from one"
        ++ (codes
              " of the well-know german supermarkets. Preserve the original layout and formatting as closely as possible."
            ++ (codes
                  " Items on the same line in the image/pdf should stay on the same line in the output text."
                ++ (codes
                      " If the line starts with the blank text - use spaces to align text with the text position on the image/document."
                    ++ (codes
                          " If there is no text, respond with: [NO TEXT FOUND]. Output only the extracted text, nothing else.',"
                        ++ (codes
                            "  datetime('now'), datetime('now') WHERE NOT EXISTS (SELECT 1 FROM prompts);"))))))

abbrev pub seed2 : Text
seed2 =
    codes "INSERT OR IGNORE INTO prompts (name, content, created_at, updated_at) SELECT 'parser',"
    ++ (codes "  'You are an expert German supermarket receipt parsing tool. You are given text"
        ++ (codes
              " extracted from a receipt photo via OCR. The layout is important, as item descriptions often span multiple lines."
            ++ (codes " Your task is to extract the data and return it strictly as a JSON document"
                ++ (codes
                      " matching the schema below. Return ONLY the raw JSON.' || ' Extraction Rules:"
                    ++ (codes " Multi-line Items: Merge wrapped lines into a single original_name."
                        ++ (codes
                              " Translation: Provide an accurate English translation. Categorization: Assign a broad category and sub_category."
                            ++ (codes
                                  " Amounts and Units: Default to 1 if not stated. Extract unit from name."
                                ++ (codes
                                      " Discounts: Include discount amount if shown (AKTION, RABATT, etc). null if none."
                                    ++ (codes
                                          " is_receipt: true if valid receipt, false if not. image_quality: 0-100 percent (100=perfect OCR, 0=unreadable)."
                                        ++ (codes
                                              " reported_item_count: number stated on receipt, or null. Other Info: Group remaining data into the other object.' || '"
                                            ++ (codes
                                                  " JSON Schema: {is_receipt,image_quality:0-100, store_information:{name,address},"
                                                ++ (codes
                                                      " line_items:[{id,original_name,english_translation,category,sub_category,"
                                                    ++ (codes
                                                          " price,discount,tax_group,amount,unit_of_measure}], total_sum,reported_item_count,"
                                                        ++ (codes
                                                            " other:{date,time,receipt_number,payment_method,tax_details,card_details, raw_unmapped_text}}',"
                                                            ++ (codes
                                                            "  datetime('now'), datetime('now') WHERE NOT EXISTS (SELECT 1 FROM prompts WHERE name='parser');")))))))))))))))

pragmas : List Text
pragmas =
    codes "PRAGMA journal_mode=WAL;"
    ∷ codes "PRAGMA synchronous=NORMAL;"
    ∷ codes "PRAGMA busy_timeout=5000;"
    ∷ codes "PRAGMA cache_size=-2000;"
    ∷ codes "PRAGMA foreign_keys=ON;"
    ∷ []

module _ {W : Type 0} (sq : Sqlite W) where
  -- The calls of `sqlite3_exec` whose result is not read.
  exec_each : List Text → Call W (Unit {0})
  exec_each [] = pure tt
  exec_each (sql ∷ sqls) = do sq.exec sql; exec_each sqls

  -- Behind `db_exec` of the schema.
  with_schema : Bool → Call W Bool
  unfolding exec_each
  with_schema false = do sq.close_db; pure false
  with_schema true = do exec_each (seed ∷ seed2 ∷ []); pure true

  with_connection : Bool → Call W Bool
  unfolding exec_each with_schema pragmas
  with_connection false = pure false
  with_connection true = do exec_each pragmas; ok ← sq.exec schema; with_schema ok

  -- `sqlite_open`; `false` is a NULL backend.
  unfoldable pub sqlite_open : Text → Call W Bool
  unfolding with_connection
  sqlite_open path = do ok ← sq.open_db path; with_connection ok

  just_rows : List FileRecord × Bool → List FileRecord
  just_rows r = r.0

  -- `sqlite_ops`, with a bound on the number of rows as fuel for its two loops
  unfoldable pub sqlite_ops : ℕ → DbBackend W
  unfolding just_rows
  sqlite_ops fuel = record {
    find_by_hash = sqlite_find_by_hash sq;
    find_by_id = sqlite_find_by_id sq;
    insert = sqlite_insert sq;
    mark_ocr_done = sqlite_mark_ocr_done sq;
    mark_parsing_done = sqlite_mark_parsing_done sq;
    get_parsed_receipt = sqlite_get_parsed_receipt sq;
    list = do
      r ← sqlite_list sq fuel
      pure (just_rows r);
    get_prompts = sqlite_get_prompts sq fuel;
    update_prompt = sqlite_update_prompt sq;
    delete_file = sqlite_delete_file sq;
  }
