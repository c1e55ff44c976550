-- ===== src/Repository/Memory/Invariant.antt =====
-- The well-formedness of the repository in memory: src/infra/file_repository_memory.c.
use kaufbot.Prelude.{
  ℕ, ◌+◌, ◌≤◌, ◌<◌, ◌≡◌, refl, false, none, List, [], ◌∷◌, ◌++◌, length, length-append, arith, ℤ,
  pos, eq_ℤ, is_some, Bool-cases, inl, inr, leb,
}
use kaufbot.CText.{Text}
use kaufbot.Backend.{FileRecord}
use kaufbot.Repository.Memory.{
  MemoryRepository, max_memory_records, max_memory_receipts, search_hash, search_id, fresh_record,
  insert, mark_first, mark_ocr_complete, mark_parsing_complete, remove_first, delete_by_id,
}

-- Every id is from 1 up to `bound`, excluded, and no two records share one.
abbrev pub DistinctIds : ℕ → List FileRecord → Type 0
DistinctIds bound [] = Unit
DistinctIds bound (r ∷ rs) =
    ((n : ℕ) × (r.id ≡ pos n) × (1 ≤ n) × (n < bound))
    × (search_id r.id rs ≡ none)
    × DistinctIds bound rs

pub record IsValid (m : MemoryRepository) : Type 0 where
  pub ids : DistinctIds m.next_id m.records
  pub counter : 1 ≤ m.next_id
  pub room : length m.records ≤ max_memory_records
  pub receipts : length m.receipts ≤ max_memory_receipts

search_id-append :
    (id : ℤ) (rs : List FileRecord) (r : FileRecord)
    → search_id id rs ≡ none
    → eq_ℤ r.id id ≡ false
    → search_id id (rs ++ r ∷ []) ≡ none
unfolding search_id
search_id-append id [] r h e = ground arith
search_id-append id (x ∷ rs) r h e = ground (arith, search_id-append id rs r)

-- One more record, with the bound for its id.
DistinctIds-append :
    (n : ℕ) (rs : List FileRecord) (r : FileRecord)
    → 1 ≤ n
    → r.id ≡ pos n
    → DistinctIds n rs
    → DistinctIds (n + 1) (rs ++ r ∷ [])
DistinctIds-append n [] r h e d = ((n, e, h, omega arith), unfold search_id in refl, tt)
DistinctIds-append n (x ∷ rs) r h e ((k, same, low, high), apart, d) = (
  (k, same, low, omega arith),
  search_id-append x.id rs r apart (ground arith),
  DistinctIds-append n rs r h e d,
)

insert-IsValid :
    (original hash name : Text) (m : MemoryRepository)
    → IsValid m
    → IsValid (insert original hash name m).1
unfolding insert fresh_record
insert-IsValid original hash name m v =
    elim (Bool-cases (leb max_memory_records (length m.records))) [
      | inl full ↦ rw full v
      | inr free ↦ elim (Bool-cases (is_some (search_hash hash m.records))) [
        | inl known ↦ rw (free, known) v
        | inr unknown ↦
            rw (free, unknown)
              (let r = fresh_record m.next_id original hash name in
                record {
                  ids = DistinctIds-append m.next_id m.records r v.counter refl v.ids;
                  counter = omega (arith, v.counter);
                  room = ground (arith, length-append m.records (r ∷ []));
                  receipts = v.receipts;
                })
      ]
    ]

search_id-mark_first :
    (id j : ℤ) (name : Text) (rs : List FileRecord)
    → search_id j rs ≡ none
    → search_id j (mark_first id name rs) ≡ none
unfolding search_id mark_first
search_id-mark_first id j name [] h = refl
search_id-mark_first id j name (r ∷ rs) h = ground (arith, search_id-mark_first id j name rs)

length-mark_first :
    (id : ℤ) (name : Text) (rs : List FileRecord) → length (mark_first id name rs) ≡ length rs
unfolding mark_first
length-mark_first id name [] = refl
length-mark_first id name (r ∷ rs) = ground (arith, length-mark_first id name rs)

DistinctIds-mark_first :
    (n : ℕ) (id : ℤ) (name : Text) (rs : List FileRecord)
    → DistinctIds n rs
    → DistinctIds n (mark_first id name rs)
unfolding mark_first
DistinctIds-mark_first n id name [] d = tt
DistinctIds-mark_first n id name (r ∷ rs) (low, apart, d) = elim (Bool-cases (eq_ℤ r.id id)) [
  | inl e ↦ rw e (low, apart, d)
  | inr e ↦
      rw e (low, search_id-mark_first id r.id name rs apart, DistinctIds-mark_first n id name rs d)
]

mark_ocr_complete-IsValid :
    (id : ℤ) (name : Text) (m : MemoryRepository)
    → IsValid m
    → IsValid (mark_ocr_complete id name m).1
unfolding mark_ocr_complete
mark_ocr_complete-IsValid id name m v = elim (Bool-cases (is_some (search_id id m.records))) [
  | inl here ↦ rw here (record {
    ids = DistinctIds-mark_first m.next_id id name m.records v.ids;
    counter = v.counter;
    room = rw length-mark_first v.room;
    receipts = v.receipts;
  })
  | inr absent ↦ rw absent v
]

mark_parsing_complete-IsValid :
    (id : ℤ) (json : Text) (m : MemoryRepository)
    → IsValid m
    → IsValid (mark_parsing_complete id json m).1
unfolding mark_parsing_complete
mark_parsing_complete-IsValid id json m v = elim (Bool-cases (is_some (search_id id m.records))) [
  | inr absent ↦ rw absent v
  | inl here ↦ elim (Bool-cases (leb max_memory_receipts (length m.receipts))) [
    | inl full ↦ rw (here, full) v
    | inr free ↦
        rw (here, free)
          (record {
            ids = v.ids;
            counter = v.counter;
            room = v.room;
            receipts = rw length-append (ground arith);
          })
  ]
]

search_id-remove_first :
    (id j : ℤ) (rs : List FileRecord)
    → search_id j rs ≡ none
    → search_id j (remove_first id rs) ≡ none
unfolding search_id remove_first
search_id-remove_first id j [] h = refl
search_id-remove_first id j (r ∷ rs) h = ground (arith, search_id-remove_first id j rs)

length-remove_first : (id : ℤ) (rs : List FileRecord) → length (remove_first id rs) ≤ length rs
unfolding remove_first
length-remove_first id [] = omega arith
length-remove_first id (r ∷ rs) = ground (arith, length-remove_first id rs)

DistinctIds-remove_first :
    (n : ℕ) (id : ℤ) (rs : List FileRecord) → DistinctIds n rs → DistinctIds n (remove_first id rs)
unfolding remove_first
DistinctIds-remove_first n id [] d = tt
DistinctIds-remove_first n id (r ∷ rs) (low, apart, d) = elim (Bool-cases (eq_ℤ r.id id)) [
  | inl e ↦ rw e d
  | inr e ↦ rw e (low, search_id-remove_first id r.id rs apart, DistinctIds-remove_first n id rs d)
]

delete_by_id-IsValid : (id : ℤ) (m : MemoryRepository) → IsValid m → IsValid (delete_by_id id m).1
unfolding delete_by_id
delete_by_id-IsValid id m v = elim (Bool-cases (is_some (search_id id m.records))) [
  | inl here ↦ rw here (record {
    ids = DistinctIds-remove_first m.next_id id m.records v.ids;
    counter = v.counter;
    room = omega (arith, length-remove_first id m.records, v.room);
    receipts = v.receipts;
  })
  | inr absent ↦ rw absent v
]

-- Every call that changes the repository keeps it well-formed: the ids are distinct, positive and
-- below the counter, and neither array is overfull.
pub calls-IsValid :
    (m : MemoryRepository)
    → IsValid m
    → ((original hash name : Text) → IsValid (insert original hash name m).1)
      × ((id : ℤ) (name : Text) → IsValid (mark_ocr_complete id name m).1)
      × ((id : ℤ) (json : Text) → IsValid (mark_parsing_complete id json m).1)
      × ((id : ℤ) → IsValid (delete_by_id id m).1)
calls-IsValid m v = (
  λ original hash name. insert-IsValid original hash name m v,
  λ id name. mark_ocr_complete-IsValid id name m v,
  λ id json. mark_parsing_complete-IsValid id json m v,
  λ id. delete_by_id-IsValid id m v,
)
