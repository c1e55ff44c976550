-- ===== src/Tests/Pipeline.antt =====
-- The theorems of the pipeline in the test world.
use kaufbot.Prelude.{
  length, ◌<◌, false, eq_ℤ, ◌≡◌, refl, true, some, [], ◌∷◌, pos, ℤ, arith, is_some,
}
use kaufbot.CText.{Text, codes, text_eq, text_eq_iff, copy_to}
use kaufbot.Backend.{
  Bytes, FileRecord, read_text, read_binary, max_filename, repo_err, not_found, DbBackend, failed,
}
use kaufbot.Processor.Messages.{duplicate_detected}
use kaufbot.Processor.Upload.{handle_file}
use kaufbot.Processor.Upload.Invariant.{UploadLaws, handle_file-keeps}
use kaufbot.Processor.Upload.Duplicate.{handle_file_again}
use kaufbot.Processor.Retry.{retry_ocr, retry_ocr_with_model}
use kaufbot.Processor.Retry.Keeps.{retry_ocr-keeps, retry_ocr_with_model-keeps}
use kaufbot.Processor.Upload.Duplicate.{HashLaws}
use kaufbot.Repository.Memory.Lookup.{Holds}
use kaufbot.Repository.Database.{db_table}
use kaufbot.Repository.Database.Errors.{blind, handle_file-blind}
use kaufbot.Repository.Memory.{
  MemoryRepository, search_id, find_by_hash, find_by_id, insert, mark_ocr_complete,
  mark_parsing_complete, delete_by_id,
}
use kaufbot.Repository.Memory.Pipeline.{StandsBeside, memory-HashLaws}
use kaufbot.Repository.Memory.Files.{HasFiles, memory-UploadLaws}
use kaufbot.Repository.Memory.Invariant.{IsValid, calls-IsValid}
use kaufbot.Repository.Memory.Lookup.{find_by_id-delete_by_id}
use kaufbot.Storage.Sha256.{sha256_hex}
use kaufbot.Tests.World.{
  World, Rest, cjson, storage, ocr, processor, start, filled, get_file, database,
}

abbrev Stored : Rest → Text → Type 0
Stored s name = is_some (get_file s.files name) ≡ true

Stored-cons :
    (s : Rest) (name other : Text) (b : Bytes)
    → Stored s name
    → is_some (get_file ((other, b) ∷ s.files) name) ≡ true
unfolding get_file
Stored-cons s name other b h = ground arith

Stored-cons_self :
    (s : Rest) (name : Text) (b : Bytes) → is_some (get_file ((name, b) ∷ s.files) name) ≡ true
unfolding get_file
Stored-cons_self s name b = ground (arith, text_eq_iff name name)

StandsBeside-processor : (name : Text) → StandsBeside processor (λ s. Stored s name)
unfolding read_text read_binary
StandsBeside-processor name = record {
  time = λ r s. (refl, λ h. h);
  save_file = λ other b r s. (refl, Stored-cons s name other b);
  save_text = λ other b r s. (refl, Stored-cons s name other b);
  read_ocr_text = λ other r s. (refl, λ h. h);
  read_original = λ other r s. (refl, λ h. h);
  public_url = λ other r s. (refl, λ h. h);
  extract = λ b other r s. (refl, λ h. h);
  extract_with = λ b other model r s. (refl, λ h. h);
  parse = λ text r s. (refl, λ h. h);
  tokens = λ r s. (refl, λ h. h);
}

laws :
    UploadLaws processor
      (HasFiles Stored)
      (λ w name. (length name < max_filename) × Stored w.1 name)
laws =
    memory-UploadLaws (some storage) storage ocr processor.dup_strategy processor.local_time
      StandsBeside-processor (λ name b w done. Stored-cons_self w.1 name b)

abbrev jpeg : Bytes
jpeg = codes "JPEG"

uploaded :
    (handle_file cjson processor (some (codes "a.jpg")) (some jpeg) 4096 start).0.out_id ≡ pos 1
unfolding handle_file find_by_hash insert
uploaded = refl

handle_file-keeps_example :
    HasFiles Stored (handle_file cjson processor (some (codes "a.jpg")) (some jpeg) 4096 start).1
handle_file-keeps_example =
    handle_file-keeps cjson processor laws (some (codes "a.jpg")) (some jpeg) 4096 start tt

handle_file_again_example :
    (r : FileRecord) × (r.file_hash ≡ sha256_hex jpeg)
    × ((handle_file cjson processor
          (some (codes "b.png"))
          (some jpeg)
          4096
          (handle_file cjson processor (some (codes "a.jpg")) (some jpeg) 4096 start).1).0
        ≡ record { reply = some (copy_to 4096 (duplicate_detected r)); out_id = pos 0 })
handle_file_again_example =
    handle_file_again cjson processor
      (memory-HashLaws (some storage) storage ocr processor.dup_strategy processor.local_time
        (StandsBeside-processor []))
      (codes "a.jpg") (codes "b.png") jpeg 4095 4095 start refl (λ e. cc (uploaded, e))

-- The retries of the record that is there, and that it has been tried again.
filled-HasFiles : HasFiles Stored filled
unfolding get_file text_eq
filled-HasFiles = (refl, tt)

retried : (retry_ocr cjson processor (pos 1) 4096 filled).0.succeeded ≡ true
unfolding retry_ocr find_by_id read_text get_file text_eq
retried = refl

retry_ocr-keeps_example : HasFiles Stored (retry_ocr cjson processor (pos 1) 4096 filled).1
retry_ocr-keeps_example =
    retry_ocr-keeps cjson processor laws.reads (pos 1) 4096 filled filled-HasFiles

retry_ocr_with_model-keeps_example :
    HasFiles Stored (retry_ocr_with_model cjson processor (pos 1) (some (codes "m")) 4096 filled).1
retry_ocr_with_model-keeps_example =
    retry_ocr_with_model-keeps cjson processor laws.reads laws.save_text (pos 1) (some (codes "m"))
      4096 filled filled-HasFiles

-- A repository with one record.
abbrev one_record : MemoryRepository
one_record = record {
  records =
      record {
        id = pos 1;
        original_file_name = codes "a.jpg";
        file_size_bytes = pos 0;
        saved_file_name = codes "u.jpg";
        file_hash = codes "h";
        is_ocr_processed = false;
        ocr_file_name = [];
        created_at = [];
        updated_at = [];
      }
      ∷ [];
  receipts = [];
  next_id = 2;
  next_receipt_id = 1;
}

one_record-IsValid : IsValid one_record
unfolding search_id
one_record-IsValid = record {
  ids = ((1, refl, omega arith, omega arith), refl, tt);
  counter = omega arith;
  room = omega arith;
  receipts = omega arith;
}

calls-IsValid_example :
    ((original hash name : Text) → IsValid (insert original hash name one_record).1)
    × ((id : ℤ) (name : Text) → IsValid (mark_ocr_complete id name one_record).1)
    × ((id : ℤ) (json : Text) → IsValid (mark_parsing_complete id json one_record).1)
    × ((id : ℤ) → IsValid (delete_by_id id one_record).1)
calls-IsValid_example = calls-IsValid one_record one_record-IsValid

find_by_id-delete_by_id_example :
    ((find_by_id (pos 1) (delete_by_id (pos 1) one_record).1).0 ≡ repo_err not_found)
    × ((j : ℤ)
        → eq_ℤ (pos 1) j ≡ false
        → (find_by_id j (delete_by_id (pos 1) one_record).1).0 ≡ (find_by_id j one_record).0)
find_by_id-delete_by_id_example = find_by_id-delete_by_id (pos 1) one_record one_record-IsValid

-- Where a lookup of a hash fails, the repository over a database answers as for a missing record.
abbrev failing : DbBackend World
failing = record database { find_by_hash = λ hash w. (failed, w) }

handle_file-blind_example :
    handle_file cjson
      (record processor { repo = db_table (blind failing) (some storage) })
      (some (codes "a.jpg"))
      (some jpeg)
      4096
    ≡ handle_file cjson
        (record processor { repo = db_table failing (some storage) })
        (some (codes "a.jpg"))
        (some jpeg)
        4096
handle_file-blind_example =
    handle_file-blind cjson processor failing (some storage) (some (codes "a.jpg")) (some jpeg) 4096

memory-HashLaws_example : HashLaws processor (λ w hash. Holds w.0 hash)
memory-HashLaws_example =
    memory-HashLaws (some storage) storage ocr processor.dup_strategy processor.local_time
      (StandsBeside-processor [])

memory-UploadLaws_example :
    UploadLaws processor
      (HasFiles Stored)
      (λ w name. (length name < max_filename) × Stored w.1 name)
memory-UploadLaws_example =
    memory-UploadLaws (some storage) storage ocr processor.dup_strategy processor.local_time
      StandsBeside-processor (λ name b w done. Stored-cons_self w.1 name b)
