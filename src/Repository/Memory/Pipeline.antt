-- ===== src/Repository/Memory/Pipeline.antt =====
-- The repository of src/infra/file_repository_memory.c under the pipeline of src/processor.c: it
-- meets the laws that the pipeline's theorems ask for.
use mathlib.Core.Path.{subst⁻¹}
use kaufbot.Prelude.{◌≡◌, Option, Call, Keeps, ℤ}
use kaufbot.CText.{Text}
use kaufbot.Backend.{Bytes, StorageBackend, OcrService, read_text, read_binary}
use kaufbot.Storage.FileName.{LocalTime}
use kaufbot.Processor.Defs.{Processor, DuplicateStrategy}
use kaufbot.Processor.Frame.{KeptByReads}
use kaufbot.Processor.Upload.Duplicate.{HashLaws}
use kaufbot.Repository.Memory.{
  MemoryRepository, mark_ocr_complete, mark_parsing_complete, find_by_hash, find_by_id,
}
use kaufbot.Repository.Memory.Table.{memory_table}
use kaufbot.Repository.Memory.Lookup.{
  Holds, Holds-found, Holds-insert, Holds-insert_other, Holds-mark_ocr_complete,
  Holds-mark_parsing_complete,
}

module _ {S : Type 0} where
  -- A processor on the repository in memory.
  abbrev pub on_memory :
      Option (StorageBackend (MemoryRepository × S))
      → StorageBackend (MemoryRepository × S)
      → OcrService (MemoryRepository × S)
      → DuplicateStrategy
      → Call (MemoryRepository × S) LocalTime
      → Processor (MemoryRepository × S)
  on_memory stored storage ocr dup_strategy local_time = record {
    repo = memory_table stored;
    storage = storage;
    ocr = ocr;
    dup_strategy = dup_strategy;
    local_time = local_time;
  }

  -- A call that leaves the repository alone, and keeps a predicate of the rest of the world.
  abbrev pub Beside : {A : Type 0} → (S → Type 0) → Call (MemoryRepository × S) A → Type 0
  Beside Q m = (r : MemoryRepository) (s : S) → ((m (r, s)).1.0 ≡ r) × (Q s → Q (m (r, s)).1.1)

  -- The storage, the OCR service and the clock stand beside the repository, and lose no `Q`.
  pub record StandsBeside (p : Processor (MemoryRepository × S)) (Q : S → Type 0) : Type 0 where
    pub time : Beside Q p.local_time
    pub save_file : (name : Text) (b : Bytes) → Beside Q (p.storage.save_file name b)
    pub save_text : (name text : Text) → Beside Q (p.storage.save_text name text)
    pub read_ocr_text : (name : Text) → Beside Q (read_text p.repo.get_storage name)
    pub read_original : (name : Text) → Beside Q (read_binary p.repo.get_storage name)
    pub public_url : (name : Text) → Beside Q (p.storage.get_public_url name)
    pub extract : (b : Bytes) (name : Text) → Beside Q (p.ocr.extract_text b name)
    pub extract_with :
        (b : Bytes) (name model : Text) → Beside Q (p.ocr.extract_text_with_model b name model)
    pub parse : (text : Text) → Beside Q (p.ocr.parse_receipt text)
    pub tokens : Beside Q p.ocr.get_last_tokens

  -- A predicate of the repository is kept by what stands beside it.
  keeps_beside :
      {A : Type 0} {Q : S → Type 0} (P : MemoryRepository → Type 0)
      (m : Call (MemoryRepository × S) A)
      → Beside Q m
      → Keeps (λ w. P w.0) m
  keeps_beside P m beside (r, s) h = subst⁻¹ P (beside r s).0 h

module _ {S : Type 0} (stored : Option (StorageBackend (MemoryRepository × S)))
    (storage : StorageBackend (MemoryRepository × S)) (ocr : OcrService (MemoryRepository × S))
    (dup_strategy : DuplicateStrategy) (local_time : Call (MemoryRepository × S) LocalTime)
    {Q : S → Type 0}
    (beside : StandsBeside (on_memory stored storage ocr dup_strategy local_time) Q) where
  -- Of the calls in the pipeline only the two marks and the insertion change the repository.
  memory-KeptByReads :
      (P : MemoryRepository → Type 0)
      → ((id : ℤ) (name : Text) (m : MemoryRepository) → P m → P (mark_ocr_complete id name m).1)
      → ((id : ℤ) (json : Text) (m : MemoryRepository)
          → P m
          → P (mark_parsing_complete id json m).1)
      → KeptByReads (on_memory stored storage ocr dup_strategy local_time) (λ w. P w.0)
  unfolding find_by_hash find_by_id
  memory-KeptByReads P marked parsed = record {
    time = keeps_beside P local_time beside.time;
    find_by_hash = λ hash w h. h;
    find_by_id = λ id w h. h;
    mark_ocr = λ id name w h. marked id name w.0 h;
    mark_parsing = λ id json w h. parsed id json w.0 h;
    read_ocr_text = λ name. keeps_beside P (read_text stored name) (beside.read_ocr_text name);
    read_original = λ name. keeps_beside P (read_binary stored name) (beside.read_original name);
    public_url = λ name. keeps_beside P (storage.get_public_url name) (beside.public_url name);
    extract = λ b name. keeps_beside P (ocr.extract_text b name) (beside.extract b name);
    extract_with = λ b name model.
        keeps_beside P (ocr.extract_text_with_model b name model)
          (beside.extract_with b name model);
    parse = λ text. keeps_beside P (ocr.parse_receipt text) (beside.parse text);
    tokens = keeps_beside P ocr.get_last_tokens beside.tokens;
  }

  -- The repository in memory remembers the hashes that were inserted, whatever storage, OCR service
  -- and clock stand beside it.
  pub memory-HashLaws :
      HashLaws (on_memory stored storage ocr dup_strategy local_time) (λ w hash. Holds w.0 hash)
  memory-HashLaws = record {
    stays = λ hash. record {
      reads =
          memory-KeptByReads (λ m. Holds m hash)
            (λ id name m. Holds-mark_ocr_complete hash id name m)
            (λ id json m. Holds-mark_parsing_complete hash id json m);
      save_file = λ name b.
          keeps_beside (λ m. Holds m hash) (storage.save_file name b) (beside.save_file name b);
      save_text = λ name text.
          keeps_beside (λ m. Holds m hash) (storage.save_text name text)
            (beside.save_text name text);
      file_saved = λ name b w fits done. tt;
      insert = λ original other name w saved h. Holds-insert_other hash original other name w.0 h;
    };
    inserted =
        λ original hash name w id fits done. Holds-insert original hash name w.0 id fits done;
    found = λ hash w h. Holds-found hash w.0 h;
  }
