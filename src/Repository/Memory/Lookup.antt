-- ===== src/Repository/Memory/Lookup.antt =====
-- What the lookups of src/infra/file_repository_memory.c find.
use kaufbot.Prelude.{
  ℕ, ◌<◌, ◌≡◌, refl, true, false, none, some, List, [], ◌∷◌, ◌++◌, length, take-eq_of_le, arith, ℤ,
  eq_ℤ, eq_ℤ_iff, is_some, Bool-cases, inl, inr, leb,
}
use kaufbot.CText.{Text, text_eq, text_eq_iff, copy_to}
use kaufbot.Backend.{FileRecord, repo_ok, repo_err, not_found, db_hash_len}
use kaufbot.Repository.Memory.{
  MemoryRepository, max_memory_records, search_hash, search_id, fresh_record, find_by_hash,
  find_by_id, insert, mark_first, mark_ocr_complete, mark_parsing_complete, remove_first,
  delete_by_id,
}
use kaufbot.Repository.Memory.Invariant.{IsValid, DistinctIds}

-- A record with the hash is there.
abbrev pub Holds : MemoryRepository → Text → Type 0
Holds m hash = is_some (search_hash hash m.records) ≡ true

search_hash-append :
    (hash : Text) (rs : List FileRecord) (r : FileRecord)
    → is_some (search_hash hash rs) ≡ true
    → is_some (search_hash hash (rs ++ r ∷ [])) ≡ true
unfolding search_hash
search_hash-append hash [] r h = cc
search_hash-append hash (x ∷ rs) r h = ground (arith, search_hash-append hash rs r)

search_hash-append_new :
    (hash : Text) (rs : List FileRecord) (r : FileRecord)
    → r.file_hash ≡ hash
    → is_some (search_hash hash (rs ++ r ∷ [])) ≡ true
unfolding search_hash
search_hash-append_new hash [] r e = ground (arith, text_eq_iff r.file_hash hash)
search_hash-append_new hash (x ∷ rs) r e = ground (arith, search_hash-append_new hash rs r e)

search_hash-mark_first :
    (hash : Text) (id : ℤ) (name : Text) (rs : List FileRecord)
    → is_some (search_hash hash (mark_first id name rs)) ≡ is_some (search_hash hash rs)
unfolding search_hash mark_first
search_hash-mark_first hash id name [] = refl
search_hash-mark_first hash id name (r ∷ rs) =
    ground (arith, search_hash-mark_first hash id name rs)

-- A record that is found by its hash has it.
search_hash_sound :
    (hash : Text) (rs : List FileRecord)
    → is_some (search_hash hash rs) ≡ true
    → (r : FileRecord) × (search_hash hash rs ≡ some r) × (r.file_hash ≡ hash)
unfolding search_hash
search_hash_sound hash [] h = cc
search_hash_sound hash (x ∷ rs) h = elim (Bool-cases (text_eq x.file_hash hash)) [
  | inl e ↦ (x, rw e, (text_eq_iff x.file_hash hash).0 e)
  | inr e ↦ let (r, found, same) = search_hash_sound hash rs (ground arith) in (r, rw e found, same)
]

pub Holds-found :
    (hash : Text) (m : MemoryRepository)
    → Holds m hash
    → (r : FileRecord) × ((find_by_hash hash m).0 ≡ repo_ok r) × (r.file_hash ≡ hash)
unfolding find_by_hash
Holds-found hash m h = let (r, e, same) = search_hash_sound hash m.records h in (r, rw e, same)

-- The stored hash is the given one if it fits.
hash-fresh_record :
    (id : ℕ) (original hash name : Text)
    → length hash < db_hash_len
    → (fresh_record id original hash name).file_hash ≡ hash
unfolding fresh_record copy_to
hash-fresh_record id original hash name fits = take-eq_of_le 64 hash (omega arith)

pub Holds-insert :
    (original hash name : Text) (m : MemoryRepository) (id : ℤ)
    → length hash < db_hash_len
    → (insert original hash name m).0 ≡ repo_ok id
    → Holds (insert original hash name m).1 hash
unfolding insert
Holds-insert original hash name m id fits h =
    elim (Bool-cases (leb max_memory_records (length m.records))) [
      | inl full ↦ ground arith
      | inr free ↦ elim (Bool-cases (is_some (search_hash hash m.records))) [
        | inl known ↦ ground arith
        | inr unknown ↦
            rw (free, unknown)
              (search_hash-append_new hash m.records (fresh_record m.next_id original hash name)
                (hash-fresh_record m.next_id original hash name fits))
      ]
    ]

pub Holds-insert_other :
    (other original hash name : Text) (m : MemoryRepository)
    → Holds m other
    → Holds (insert original hash name m).1 other
unfolding insert
Holds-insert_other other original hash name m h =
    ground (arith, search_hash-append other m.records (fresh_record m.next_id original hash name))

pub Holds-mark_ocr_complete :
    (hash : Text) (id : ℤ) (name : Text) (m : MemoryRepository)
    → Holds m hash
    → Holds (mark_ocr_complete id name m).1 hash
unfolding mark_ocr_complete
Holds-mark_ocr_complete hash id name m h =
    ground (arith, search_hash-mark_first hash id name m.records)

pub Holds-mark_parsing_complete :
    (hash : Text) (id : ℤ) (json : Text) (m : MemoryRepository)
    → Holds m hash
    → Holds (mark_parsing_complete id json m).1 hash
unfolding mark_parsing_complete
Holds-mark_parsing_complete hash id json m h = ground arith

search_id-remove_first_self :
    (n : ℕ) (id : ℤ) (rs : List FileRecord)
    → DistinctIds n rs
    → search_id id (remove_first id rs) ≡ none
unfolding search_id remove_first
search_id-remove_first_self n id [] d = refl
search_id-remove_first_self n id (r ∷ rs) d =
    ground (arith, eq_ℤ_iff r.id id, search_id-remove_first_self n id rs d.2)

search_id-remove_first_ne :
    (id j : ℤ) (rs : List FileRecord)
    → eq_ℤ id j ≡ false
    → search_id j (remove_first id rs) ≡ search_id j rs
unfolding search_id remove_first
search_id-remove_first_ne id j [] ne = refl
search_id-remove_first_ne id j (r ∷ rs) ne =
    ground (
      arith,
      eq_ℤ_iff r.id id,
      eq_ℤ_iff r.id j,
      eq_ℤ_iff id j,
      search_id-remove_first_ne id j rs ne,
    )

-- In a well-formed repository a deletion removes the record with the id, and every other id is
-- looked up as before.
pub find_by_id-delete_by_id :
    (id : ℤ) (m : MemoryRepository)
    → IsValid m
    → ((find_by_id id (delete_by_id id m).1).0 ≡ repo_err not_found)
      × ((j : ℤ) → eq_ℤ id j ≡ false → (find_by_id j (delete_by_id id m).1).0 ≡ (find_by_id j m).0)
unfolding find_by_id delete_by_id
find_by_id-delete_by_id id m v = (
  ground (arith, search_id-remove_first_self m.next_id id m.records v.ids),
  λ j ne. ground (arith, search_id-remove_first_ne id j m.records ne),
)
