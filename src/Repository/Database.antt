-- ===== src/Repository/Database.antt =====
-- src/infra/file_repository.c: the repository over a database backend.
pub mod Errors
use kaufbot.Prelude.{
  ℕ, ◌+◌, Bool, true, false, ◌&&◌, Option, none, some, List, [], ◌∷◌, ltb_ℤ, leb_ℤ, if◌then◌else◌,
  ℤ, pos, Call, pure, ◌>>=◌,
}
use kaufbot.CText.{Text, copy_to}
use kaufbot.Backend.{
  FileRecord, RepoResult, repo_ok, repo_err, not_found, db_error, Found, found, missing, failed,
  DbBackend, FileRepository, StorageBackend, db_orig_name_len, db_hash_len, db_filename_len,
}

-- `(rc == 0) ? FILE_REPO_OK : FILE_REPO_ERR_NOT_FOUND`
unfoldable pub found_or_not : Found FileRecord → RepoResult FileRecord
found_or_not (found rec) = repo_ok rec
found_or_not missing = repo_err not_found
found_or_not failed = repo_err not_found

-- `(rc == 0) ? FILE_REPO_OK : FILE_REPO_ERR_DB`
unfoldable pub done_or_error : Bool → RepoResult (Unit {0})
done_or_error true = repo_ok tt
done_or_error false = repo_err db_error

unfoldable pub inserted_id : Option FileRecord → RepoResult ℤ
inserted_id (some rec) = repo_ok rec.id
inserted_id none = repo_err db_error

-- The record that `db_repo_insert` hands to the backend: all else is 0.
unfoldable pub blank_record : Text → Text → Text → FileRecord
blank_record original_name hash saved_filename = record {
  id = pos 0;
  original_file_name = copy_to db_orig_name_len original_name;
  file_size_bytes = pos 0;
  saved_file_name = copy_to db_filename_len saved_filename;
  file_hash = copy_to db_hash_len hash;
  is_ocr_processed = false;
  ocr_file_name = [];
  created_at = [];
  updated_at = [];
}

-- `list_adapter_cb`, called on each record with the number of those that were handed on.
unfoldable pub list_adapter : ℕ → ℤ → List FileRecord → List FileRecord
list_adapter count limit [] = []
list_adapter count limit (rec ∷ rest) = elim (ltb_ℤ (pos 0) limit && leb_ℤ limit (pos count)) [
  | true ↦ list_adapter count limit rest
  | false ↦ rec ∷ list_adapter (count + 1) limit rest
]

module _ {W : Type 0} (db : DbBackend W) where
  -- `db_repo_find_by_hash`
  unfoldable pub db_find_by_hash : Text → Call W (RepoResult FileRecord)
  db_find_by_hash hash = do r ← db.find_by_hash hash; pure (found_or_not r)

  -- `db_repo_find_by_id`
  unfoldable pub db_find_by_id : ℤ → Call W (RepoResult FileRecord)
  db_find_by_id id = do r ← db.find_by_id id; pure (found_or_not r)

  -- `db_repo_insert`
  unfoldable pub db_insert : Text → Text → Text → Call W (RepoResult ℤ)
  db_insert original_name hash saved_filename = do
    r ← db.insert (blank_record original_name hash saved_filename)
    pure (inserted_id r)

  -- `db_repo_mark_ocr_complete`
  unfoldable pub db_mark_ocr_complete : ℤ → Text → Call W (RepoResult (Unit {0}))
  db_mark_ocr_complete id ocr_filename = do
    done ← db.mark_ocr_done id ocr_filename
    pure (done_or_error done)

  -- `db_repo_mark_parsing_complete`
  unfoldable pub db_mark_parsing_complete : ℤ → Text → Call W (RepoResult (Unit {0}))
  db_mark_parsing_complete id parsed_json = do
    done ← db.mark_parsing_done id parsed_json
    pure (done_or_error done)

  -- `db_repo_delete_by_id`
  unfoldable pub db_delete_by_id : ℤ → Call W (RepoResult (Unit {0}))
  db_delete_by_id id = do done ← db.delete_file id; pure (done_or_error done)

  -- `db_repo_list`: the records that the callback is given.
  unfoldable pub db_list : ℤ → Call W (RepoResult (List FileRecord))
  db_list limit = do recs ← db.list; pure (repo_ok (list_adapter 0 limit recs))

  -- `db_repo_ops`
  abbrev pub db_table : Option (StorageBackend W) → FileRepository W
  db_table storage = record {
    find_by_hash = db_find_by_hash;
    find_by_id = db_find_by_id;
    insert = db_insert;
    mark_ocr_complete = db_mark_ocr_complete;
    mark_parsing_complete = db_mark_parsing_complete;
    delete_by_id = db_delete_by_id;
    list = db_list;
    get_storage = storage;
  }
