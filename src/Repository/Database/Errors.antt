-- ===== src/Repository/Database/Errors.antt =====
-- What the repository over a database (src/infra/file_repository.c) makes of the backend's results.
use kaufbot.Prelude.{
  ℕ, zero, suc, ◌+◌, ◌≤◌, ◌<◌, ◌≡◌, refl, ap, true, false, ◌&&◌, Option, List, [], ◌∷◌, take, arith,
  leb_ℤ, ltb_ℤ, pos,
}
use kaufbot.CText.{Text}
use kaufbot.Extern.{Doubles, Cjson}
use kaufbot.Backend.{
  Bytes, FileRecord, repo_ok, Found, found, missing, failed, DbBackend, StorageBackend,
}
use kaufbot.Processor.Defs.{Processor}
use kaufbot.Processor.Upload.{handle_file}
use kaufbot.Repository.Database.{
  found_or_not, list_adapter, db_find_by_id, db_insert, db_mark_ocr_complete,
  db_mark_parsing_complete, db_delete_by_id, db_list, db_find_by_hash, db_table,
}

-- A backend whose failed lookups of a hash look like missing records.
abbrev pub without_failure : Found FileRecord → Found FileRecord
without_failure (found rec) = found rec
without_failure missing = missing
without_failure failed = missing

found_or_not-without_failure :
    (r : Found FileRecord) → found_or_not (without_failure r) ≡ found_or_not r
unfolding found_or_not
found_or_not-without_failure (found rec) = refl
found_or_not-without_failure missing = refl
found_or_not-without_failure failed = refl

module _ {W : Type 0} where
  abbrev pub blind : DbBackend W → DbBackend W
  blind db = record db {
    find_by_hash = λ hash w. let (r, w') = db.find_by_hash hash w in (without_failure r, w');
  }

  db_find_by_hash-blind : (db : DbBackend W) → db_find_by_hash (blind db) ≡ db_find_by_hash db
  unfolding db_find_by_hash
  db_find_by_hash-blind db = λ i hash w.
      (found_or_not-without_failure (db.find_by_hash hash w).0 i, (db.find_by_hash hash w).1)

  -- An upload cannot tell a failed lookup of its hash from a missing record: with the repository
  -- over a database, it runs as if the lookup had found nothing.
  pub handle_file-blind :
      {d : Doubles} (cj : Cjson d) (p : Processor W) (db : DbBackend W)
      (storage : Option (StorageBackend W)) (original : Option Text) (b : Option Bytes) (size : ℕ)
      → handle_file cj (record p { repo = db_table (blind db) storage }) original b size
        ≡ handle_file cj (record p { repo = db_table db storage }) original b size
  unfolding db_find_by_id db_insert db_mark_ocr_complete db_mark_parsing_complete db_delete_by_id
      db_list
  handle_file-blind cj p db storage original b size =
      ap
        (λ f.
          handle_file cj (record p { repo = record (db_table db storage) { find_by_hash = f } })
            original b size)
        (db_find_by_hash-blind db)

full :
    (count limit : ℕ)
    → 1 ≤ limit
    → limit ≤ count
    → (ltb_ℤ (pos 0) (pos limit) && leb_ℤ (pos limit) (pos count)) ≡ true
full count limit some_ le = ground arith

not_full :
    (count limit : ℕ)
    → count < limit
    → (ltb_ℤ (pos 0) (pos limit) && leb_ℤ (pos limit) (pos count)) ≡ false
not_full count limit lt = ground arith

list_adapter-take :
    (left count limit : ℕ) (recs : List FileRecord)
    → 1 ≤ limit
    → count + left ≡ limit
    → list_adapter count (pos limit) recs ≡ take left recs
unfolding list_adapter
list_adapter-take zero count limit [] some_ e = refl
list_adapter-take (suc left) count limit [] some_ e = refl
list_adapter-take zero count limit (rec ∷ rest) some_ e =
    rw (list_adapter, full count limit some_ (omega arith))
      (list_adapter-take zero count limit rest some_ e)
list_adapter-take (suc left) count limit (rec ∷ rest) some_ e =
    rw (list_adapter, not_full count limit (omega arith))
      (ap (λ l. rec ∷ l) (list_adapter-take left (count + 1) limit rest some_ (omega arith)))

-- A positive limit lists that many of the backend's records, in its order.
pub db_list-take :
    {W : Type 0} (db : DbBackend W) (limit : ℕ) (w : W)
    → 1 ≤ limit
    → (db_list db (pos limit) w).0 ≡ repo_ok (take limit (db.list w).0)
unfolding db_list
db_list-take db limit w some_ =
    ap repo_ok (list_adapter-take limit 0 limit (db.list w).0 some_ (omega arith))
