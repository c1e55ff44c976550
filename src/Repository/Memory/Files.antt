-- ===== src/Repository/Memory/Files.antt =====
-- Every record of the repository in memory (src/infra/file_repository_memory.c) has its file, when
-- records are inserted by the pipeline of src/processor.c.
use mathlib.Core.Path.{subst⁻¹}
use kaufbot.Prelude.{
  ℕ, ◌<◌, ◌≡◌, true, Option, List, [], ◌∷◌, ◌++◌, length, arith, All, Call, Keeps, ℤ, take-eq_of_le,
  Bool-cases, inl, inr, eq_ℤ, leb, is_some,
}
use kaufbot.CText.{Text, copy_to}
use kaufbot.Backend.{
  Bytes, FileRecord, StorageBackend, OcrService, read_text, read_binary, max_filename,
}
use kaufbot.Storage.FileName.{LocalTime}
use kaufbot.Processor.Defs.{DuplicateStrategy}
use kaufbot.Processor.Upload.Invariant.{UploadLaws}
use kaufbot.Repository.Memory.{
  MemoryRepository, max_memory_records, max_memory_receipts, search_hash, fresh_record, insert,
  search_id, mark_first, mark_ocr_complete, mark_parsing_complete, find_by_hash, find_by_id,
}
use kaufbot.Repository.Memory.Pipeline.{on_memory, Beside, StandsBeside}

module _ {S : Type 0} (Stored : S → Text → Type 0) where
  -- The file of every record is stored.
  abbrev pub HasFiles : MemoryRepository × S → Type 0
  HasFiles (m, s) = All (λ (r : FileRecord). Stored s r.saved_file_name) m.records

  HasFiles-map :
      (s t : S) (rs : List FileRecord)
      → ((name : Text) → Stored s name → Stored t name)
      → All (λ (r : FileRecord). Stored s r.saved_file_name) rs
      → All (λ (r : FileRecord). Stored t r.saved_file_name) rs
  HasFiles-map s t [] f h = tt
  HasFiles-map s t (r ∷ rs) f (here, later) =
      (f r.saved_file_name here, HasFiles-map s t rs f later)

  HasFiles-mark_first :
      (s : S) (id : ℤ) (name : Text) (rs : List FileRecord)
      → All (λ (r : FileRecord). Stored s r.saved_file_name) rs
      → All (λ (r : FileRecord). Stored s r.saved_file_name) (mark_first id name rs)
  unfolding mark_first
  HasFiles-mark_first s id name [] h = tt
  HasFiles-mark_first s id name (r ∷ rs) (here, later) = elim (Bool-cases (eq_ℤ r.id id)) [
    | inl e ↦ rw e (here, later)
    | inr e ↦ rw e (here, HasFiles-mark_first s id name rs later)
  ]

  HasFiles-append :
      (s : S) (rs : List FileRecord) (r : FileRecord)
      → All (λ (r : FileRecord). Stored s r.saved_file_name) rs
      → Stored s r.saved_file_name
      → All (λ (r : FileRecord). Stored s r.saved_file_name) (rs ++ r ∷ [])
  HasFiles-append s [] r h new = (new, tt)
  HasFiles-append s (x ∷ rs) r (here, later) new = (here, HasFiles-append s rs r later new)

  HasFiles-mark_ocr_complete :
      (id : ℤ) (name : Text) (m : MemoryRepository) (s : S)
      → HasFiles (m, s)
      → HasFiles ((mark_ocr_complete id name m).1, s)
  unfolding mark_ocr_complete
  HasFiles-mark_ocr_complete id name m s h = elim (Bool-cases (is_some (search_id id m.records))) [
    | inl here ↦ rw here (HasFiles-mark_first s id name m.records h)
    | inr absent ↦ rw absent h
  ]

  HasFiles-mark_parsing_complete :
      (id : ℤ) (json : Text) (m : MemoryRepository) (s : S)
      → HasFiles (m, s)
      → HasFiles ((mark_parsing_complete id json m).1, s)
  unfolding mark_parsing_complete
  HasFiles-mark_parsing_complete id json m s h =
      elim (Bool-cases (is_some (search_id id m.records))) [
        | inl here ↦ elim (Bool-cases (leb max_memory_receipts (length m.receipts))) [
          | inl full ↦ rw (here, full) h
          | inr free ↦ rw (here, free) h
        ]
        | inr absent ↦ rw absent h
      ]

  -- A name that fits its column is stored whole.
  name-fresh_record :
      (id : ℕ) (original hash name : Text)
      → length name < max_filename
      → (fresh_record id original hash name).saved_file_name ≡ name
  unfolding fresh_record copy_to
  name-fresh_record id original hash name fits = take-eq_of_le 255 name (omega arith)

  HasFiles-insert :
      (original hash name : Text) (m : MemoryRepository) (s : S)
      → length name < max_filename
      → Stored s name
      → HasFiles (m, s)
      → HasFiles ((insert original hash name m).1, s)
  unfolding insert
  HasFiles-insert original hash name m s fits new h =
      elim (Bool-cases (leb max_memory_records (length m.records))) [
        | inl full ↦ rw full h
        | inr free ↦ elim (Bool-cases (is_some (search_hash hash m.records))) [
          | inl known ↦ rw (free, known) h
          | inr unknown ↦
              rw (free, unknown)
                (HasFiles-append s m.records (fresh_record m.next_id original hash name) h
                  (subst⁻¹ (Stored s) (name-fresh_record m.next_id original hash name fits) new))
        ]
      ]

  -- What stands beside the repository and loses no file keeps the files of the records.
  HasFiles-beside :
      {A : Type 0} (m : Call (MemoryRepository × S) A)
      → ((name : Text) → Beside (λ s. Stored s name) m)
      → Keeps HasFiles m
  HasFiles-beside m beside (r, s) h =
      subst⁻¹ (λ (r' : MemoryRepository). HasFiles (r', (m (r, s)).1.1)) (beside [] r s).0
        (HasFiles-map s (m (r, s)).1.1 r.records (λ name. (beside name r s).1) h)

module _ {S : Type 0} (stored : Option (StorageBackend (MemoryRepository × S)))
    (storage : StorageBackend (MemoryRepository × S)) (ocr : OcrService (MemoryRepository × S))
    (dup_strategy : DuplicateStrategy) (local_time : Call (MemoryRepository × S) LocalTime)
    {Stored : S → Text → Type 0}
    (beside : (name : Text)
      → StandsBeside (on_memory stored storage ocr dup_strategy local_time) (λ s. Stored s name))
    (saves : (name : Text) (b : Bytes) (w : MemoryRepository × S)
      → (storage.save_file name b w).0 ≡ true
      → Stored (storage.save_file name b w).1.1 name) where
  -- With a storage that saves what it says it saves, and collaborators that lose no file and change
  -- the repository only by its own calls, the repository in memory meets the laws of an upload for
  -- the invariant that every record has its file.
  pub memory-UploadLaws :
      UploadLaws
        (on_memory stored storage ocr dup_strategy local_time)
        (HasFiles Stored)
        (λ w name. (length name < max_filename) × Stored w.1 name)
  unfolding find_by_hash find_by_id
  memory-UploadLaws = record {
    reads = record {
      time = HasFiles-beside Stored local_time (λ n. (beside n).time);
      find_by_hash = λ hash w h. h;
      find_by_id = λ id w h. h;
      mark_ocr = λ id name w h. HasFiles-mark_ocr_complete Stored id name w.0 w.1 h;
      mark_parsing = λ id json w h. HasFiles-mark_parsing_complete Stored id json w.0 w.1 h;
      read_ocr_text = λ name.
          HasFiles-beside Stored (read_text stored name) (λ n. (beside n).read_ocr_text name);
      read_original = λ name.
          HasFiles-beside Stored (read_binary stored name) (λ n. (beside n).read_original name);
      public_url = λ name.
          HasFiles-beside Stored (storage.get_public_url name) (λ n. (beside n).public_url name);
      extract = λ b name.
          HasFiles-beside Stored (ocr.extract_text b name) (λ n. (beside n).extract b name);
      extract_with = λ b name model.
          HasFiles-beside Stored (ocr.extract_text_with_model b name model)
            (λ n. (beside n).extract_with b name model);
      parse = λ text. HasFiles-beside Stored (ocr.parse_receipt text) (λ n. (beside n).parse text);
      tokens = HasFiles-beside Stored ocr.get_last_tokens (λ n. (beside n).tokens);
    };
    save_file = λ name b.
        HasFiles-beside Stored (storage.save_file name b) (λ n. (beside n).save_file name b);
    save_text = λ name text.
        HasFiles-beside Stored (storage.save_text name text) (λ n. (beside n).save_text name text);
    file_saved = λ name b w fits done. (fits, saves name b w done);
    insert = λ original hash name w saved h.
        HasFiles-insert Stored original hash name w.0 w.1 saved.0 saved.1 h;
  }
