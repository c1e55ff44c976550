-- ===== src/Backend.antt =====
-- The tables of function pointers through which the components call one another:
-- src/db/db.h, src/db/db_backend.h, src/storage/storage_backend.h, src/infra/file_repository.h and
-- src/ocr/ocr_service.h. `W` is the world that the implementations change. A call of a table that
-- the C code makes on a possibly NULL pointer is a wrapper on `Option` here, as in the headers.
pub mod Balance
use kaufbot.Prelude.{ℕ, Bool, Option, none, some, List, ℤ, Call, pure}
use kaufbot.CText.{Text}

abbrev pub Bytes : Type 0
Bytes = List ℕ

-- `FileRecord` of db.h; the flag `is_ocr_processed` is an `int` used as a truth value.
pub record FileRecord : Type 0 where
  pub id : ℤ
  pub original_file_name : Text
  pub file_size_bytes : ℤ
  pub saved_file_name : Text
  pub file_hash : Text
  pub is_ocr_processed : Bool
  pub ocr_file_name : Text
  pub created_at : Text
  pub updated_at : Text

-- `ParsedReceipt` of db.h, without its two dates
pub record ParsedReceipt : Type 0 where
  pub id : ℤ
  pub file_id : ℤ
  pub parsed_json : Text

-- `Prompt` of db.h
pub record Prompt : Type 0 where
  pub id : ℤ
  pub name : Text
  pub content : Text
  pub created_at : Text
  pub updated_at : Text

-- The array sizes of db.h and storage.h.
abbrev pub db_ocr_filename_len : ℕ
db_ocr_filename_len = 256

abbrev pub db_hash_len : ℕ
db_hash_len = 65

abbrev pub db_filename_len : ℕ
db_filename_len = 256

abbrev pub db_orig_name_len : ℕ
db_orig_name_len = 512

abbrev pub db_json_len : ℕ
db_json_len = 65536

abbrev pub db_date_len : ℕ
db_date_len = 32

abbrev pub db_prompt_name_len : ℕ
db_prompt_name_len = 128

abbrev pub db_prompt_content_len : ℕ
db_prompt_content_len = 65536

abbrev pub max_filename : ℕ
max_filename = 256

-- `FileRepoError` without `FILE_REPO_OK`
pub data RepoError : Type 0 where
  memory not_found duplicate invalid_arg db_error storage_error : RepoError

-- The code that a repository call returns, with what it writes to its `out` parameter.
pub data RepoResult (A : Type 0) : Type 0 where
  repo_ok : A → RepoResult A
  repo_err : RepoError → RepoResult A

-- `OCRError` without `OCR_OK`
pub data OcrError : Type 0 where
  ocr_memory ocr_invalid_arg ocr_api ocr_timeout ocr_rate_limited ocr_no_text ocr_parse : OcrError

pub data OcrResult : Type 0 where
  ocr_ok : Text → OcrResult
  ocr_err : OcrError → OcrResult

-- `StorageBackendOps`; a write is `true` where the C function returns 0, and `file_exists` where it
-- returns 1.
pub record StorageBackend (W : Type 0) : Type 0 where
  pub save_file : Text → Bytes → Call W Bool
  pub save_text : Text → Text → Call W Bool
  pub file_exists : Text → Call W Bool
  pub delete_file : Text → Call W Bool
  pub read_text : Text → Call W (Option Text)
  pub read_binary : Text → Call W (Option Bytes)
  pub get_public_url : Text → Call W (Option Text)

module _ {W : Type 0} where
  -- `storage_backend_read_text`, `storage_backend_read_binary` and `storage_backend_get_public_url`
  -- on a pointer that may be NULL
  unfoldable pub read_text : Option (StorageBackend W) → Text → Call W (Option Text)
  read_text none name = pure none
  read_text (some s) name = s.read_text name

  unfoldable pub read_binary : Option (StorageBackend W) → Text → Call W (Option Bytes)
  read_binary none name = pure none
  read_binary (some s) name = s.read_binary name

  unfoldable pub get_public_url : Option (StorageBackend W) → Text → Call W (Option Text)
  get_public_url none name = pure none
  get_public_url (some s) name = s.get_public_url name

-- What `db_backend_find_by_hash` and `db_backend_find_by_id` return: 0 with the record, 1, or -1.
pub data Found (A : Type 0) : Type 0 where
  found : A → Found A
  missing : Found A
  failed : Found A

-- `DBBackendOps`; a write is `true` where the C function returns 0, and `insert` hands back the
-- record with the `id` that it was given. `list` is the sequence of records its callback is given, and so is
-- `get_prompts`, with whether it returns 0.
pub record DbBackend (W : Type 0) : Type 0 where
  pub find_by_hash : Text → Call W (Found FileRecord)
  pub find_by_id : ℤ → Call W (Found FileRecord)
  pub insert : FileRecord → Call W (Option FileRecord)
  pub mark_ocr_done : ℤ → Text → Call W Bool
  pub mark_parsing_done : ℤ → Text → Call W Bool
  pub get_parsed_receipt : ℤ → Call W (Found ParsedReceipt)
  pub list : Call W (List FileRecord)
  pub get_prompts : Call W (List Prompt × Bool)
  pub update_prompt : ℤ → Text → Call W Bool
  pub delete_file : ℤ → Call W Bool

-- `FileRepositoryOps`
pub record FileRepository (W : Type 0) : Type 0 where
  pub find_by_hash : Text → Call W (RepoResult FileRecord)
  pub find_by_id : ℤ → Call W (RepoResult FileRecord)
  pub insert : Text → Text → Text → Call W (RepoResult ℤ)
  pub mark_ocr_complete : ℤ → Text → Call W (RepoResult (Unit {0}))
  pub mark_parsing_complete : ℤ → Text → Call W (RepoResult (Unit {0}))
  pub delete_by_id : ℤ → Call W (RepoResult (Unit {0}))
  pub list : ℤ → Call W (RepoResult (List FileRecord))
  pub get_storage : Option (StorageBackend W)

-- `OCRServiceOps`, as far as the pipeline calls it
pub record OcrService (W : Type 0) : Type 0 where
  pub extract_text : Bytes → Text → Call W OcrResult
  pub extract_text_with_model : Bytes → Text → Text → Call W OcrResult
  pub parse_receipt : Text → Call W OcrResult
  pub get_last_tokens : Call W ℤ
