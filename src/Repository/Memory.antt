-- ===== src/Repository/Memory.antt =====
-- src/infra/file_repository_memory.c: the repository in memory.
pub mod Invariant
pub mod Lookup
pub mod Table
pub mod Pipeline
pub mod Files
use mathlib.Core.List.{reverse}
use kaufbot.Prelude.{
  ℕ, zero, suc, ◌+◌, ◌-◌, Bool, true, false, ◌&&◌, Option, none, some, List, [], ◌∷◌, ◌++◌, length,
  take, leb, ltb, ltb_ℤ, if◌then◌else◌, ℤ, pos, pos_part, eq_ℤ, Call, is_some,
}
use kaufbot.CText.{Text, text_eq, copy_to}
use kaufbot.Backend.{
  FileRecord, ParsedReceipt, StorageBackend, FileRepository, RepoResult, repo_ok, repo_err, memory,
  not_found, duplicate, db_ocr_filename_len, db_hash_len, db_filename_len, db_orig_name_len,
  db_json_len,
}

abbrev pub max_memory_records : ℕ
max_memory_records = 100

abbrev pub max_memory_receipts : ℕ
max_memory_receipts = 100

-- `MemoryFileRepository`: the records and receipts in use, so `count` and `receipt_count` are the
-- lengths. The two counters start at 1 and only grow.
pub record MemoryRepository : Type 0 where
  pub records : List FileRecord
  pub receipts : List ParsedReceipt
  pub next_id : ℕ
  pub next_receipt_id : ℕ

-- `file_repository_memory_new`, and the state that `file_repository_memory_clear` restores
abbrev pub new_memory : MemoryRepository
new_memory = record { records = []; receipts = []; next_id = 1; next_receipt_id = 1 }

-- The first record with a hash, and the first with an id.
unfoldable pub search_hash : Text → List FileRecord → Option FileRecord
search_hash hash [] = none
search_hash hash (r ∷ rs) = if text_eq r.file_hash hash then some r else search_hash hash rs

unfoldable pub search_id : ℤ → List FileRecord → Option FileRecord
search_id id [] = none
search_id id (r ∷ rs) = if eq_ℤ r.id id then some r else search_id id rs

abbrev or_not_found : Option FileRecord → RepoResult FileRecord
or_not_found none = repo_err not_found
or_not_found (some r) = repo_ok r

-- `mem_repo_find_by_hash`
unfoldable pub find_by_hash : Text → Call MemoryRepository (RepoResult FileRecord)
unfolding search_hash
find_by_hash hash m = (or_not_found (search_hash hash m.records), m)

-- `mem_repo_find_by_id`
unfoldable pub find_by_id : ℤ → Call MemoryRepository (RepoResult FileRecord)
unfolding search_id
find_by_id id m = (or_not_found (search_id id m.records), m)

-- The record that `mem_repo_insert` writes.
unfoldable pub fresh_record : ℕ → Text → Text → Text → FileRecord
fresh_record id original_name hash saved_filename = record {
  id = pos id;
  original_file_name = copy_to db_orig_name_len original_name;
  file_size_bytes = pos 0;
  saved_file_name = copy_to db_filename_len saved_filename;
  file_hash = copy_to db_hash_len hash;
  is_ocr_processed = false;
  ocr_file_name = [];
  created_at = [];
  updated_at = [];
}

-- `mem_repo_insert`
unfoldable pub insert : Text → Text → Text → Call MemoryRepository (RepoResult ℤ)
unfolding search_hash
insert original_name hash saved_filename m =
    if leb max_memory_records (length m.records)
    then (repo_err memory, m)
    else if is_some (search_hash hash m.records)
    then (repo_err duplicate, m)
    else (
      repo_ok (pos m.next_id),
      record m {
        records = m.records ++ fresh_record m.next_id original_name hash saved_filename ∷ [];
        next_id = m.next_id + 1;
      },
    )

-- The write of `mem_repo_mark_ocr_complete` to the first record with the id.
unfoldable pub mark_first : ℤ → Text → List FileRecord → List FileRecord
mark_first id name [] = []
mark_first id name (r ∷ rs) =
    if eq_ℤ r.id id
    then record r { is_ocr_processed = true; ocr_file_name = copy_to db_ocr_filename_len name } ∷ rs
    else r ∷ mark_first id name rs

-- `mem_repo_mark_ocr_complete`
unfoldable pub mark_ocr_complete : ℤ → Text → Call MemoryRepository (RepoResult (Unit {0}))
unfolding search_id mark_first
mark_ocr_complete id ocr_filename m =
    if is_some (search_id id m.records)
    then (repo_ok tt, record m { records = mark_first id ocr_filename m.records })
    else (repo_err not_found, m)

-- `mem_repo_mark_parsing_complete`
unfoldable pub mark_parsing_complete : ℤ → Text → Call MemoryRepository (RepoResult (Unit {0}))
unfolding search_id
mark_parsing_complete id parsed_json m =
    if is_some (search_id id m.records)
    then (if leb max_memory_receipts (length m.receipts) then (repo_err memory, m) else (
      repo_ok tt,
      record m {
        receipts =
            m.receipts
            ++ record {
              id = pos m.next_receipt_id;
              file_id = id;
              parsed_json = copy_to db_json_len parsed_json;
            }
              ∷ [];
        next_receipt_id = m.next_receipt_id + 1;
      },
    ))
    else (repo_err not_found, m)

-- The shift of the later records over the first one with the id.
unfoldable pub remove_first : ℤ → List FileRecord → List FileRecord
remove_first id [] = []
remove_first id (r ∷ rs) = if eq_ℤ r.id id then rs else r ∷ remove_first id rs

-- `mem_repo_delete_by_id`
unfoldable pub delete_by_id : ℤ → Call MemoryRepository (RepoResult (Unit {0}))
unfolding search_id remove_first
delete_by_id id m =
    if is_some (search_id id m.records)
    then (repo_ok tt, record m { records = remove_first id m.records })
    else (repo_err not_found, m)

-- `mem_repo_list`: the records that the callback is given, most recent first.
unfoldable pub list : ℤ → Call MemoryRepository (RepoResult (List FileRecord))
list limit m =
    let max =
      if ltb_ℤ (pos 0) limit && ltb (pos_part limit) (length m.records)
      then pos_part limit
      else length m.records in
    (repo_ok (take max (reverse m.records)), m)
