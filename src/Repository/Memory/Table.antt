-- ===== src/Repository/Memory/Table.antt =====
-- The table `mem_repo_ops` of src/infra/file_repository_memory.c, in a world that holds the
-- repository beside other state.
use kaufbot.Prelude.{Option, Call}
use kaufbot.Backend.{FileRepository, StorageBackend}
use kaufbot.Repository.Memory.{
  MemoryRepository, find_by_hash, find_by_id, insert, mark_ocr_complete, mark_parsing_complete,
  delete_by_id, list,
}

-- A call on the first part of a world.
abbrev pub on_repository : {S A : Type 0} → Call MemoryRepository A → Call (MemoryRepository × S) A
on_repository m (r, s) = let (a, r') = m r in (a, (r', s))

abbrev pub memory_table :
    {S : Type 0}
    → Option (StorageBackend (MemoryRepository × S))
    → FileRepository (MemoryRepository × S)
memory_table storage = record {
  find_by_hash = λ hash. on_repository (find_by_hash hash);
  find_by_id = λ id. on_repository (find_by_id id);
  insert = λ original hash saved. on_repository (insert original hash saved);
  mark_ocr_complete = λ id name. on_repository (mark_ocr_complete id name);
  mark_parsing_complete = λ id json. on_repository (mark_parsing_complete id json);
  delete_by_id = λ id. on_repository (delete_by_id id);
  list = λ limit. on_repository (list limit);
  get_storage = storage;
}
