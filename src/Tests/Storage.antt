-- ===== src/Tests/Storage.antt =====
-- Tests of SQLite's statements, of the local storage and of the document store.
use kaufbot.Prelude.{
  ℕ, suc, ◌-◌, ◌≡◌, refl, ap, Bool, true, false, Bool-cases, inl, inr, Option, none, some, [],
  length, arith, if◌then◌else◌, pos, pure, is_some, Call,
}
use kaufbot.CText.{Text, codes, text_eq, text_eq_iff}
use kaufbot.Backend.{Bytes, StorageBackend}
use kaufbot.Sqlite.Defs.{Sqlite, step_done}
use kaufbot.Sqlite.Open.{sqlite_ops}
use kaufbot.Postgres.Defs.{Libpq, tuples_ok}
use kaufbot.Postgres.Open.{postgres_ops}
use kaufbot.Postgres.Cleared.{Results, postgres_ops-AllBalanced}
use kaufbot.Sqlite.Finalized.{Statements, sqlite_ops-AllBalanced}
use kaufbot.Storage.Local.{FileSystem, removed}
use kaufbot.Storage.Local.Closed.{OpenFiles}
use kaufbot.Storage.Contents.{Contents, not_empty}
use kaufbot.DocumentStore.{doc_ok, stored, store_text, doc_read_text}
use kaufbot.DocumentStore.Texts.{IsOther, doc_read_text-store_text}

-- The world is the number of statements that are alive.
abbrev counting : Sqlite ℕ
counting = record {
  Stmt = Unit {0};
  open_db = λ path. pure true;
  close_db = pure tt;
  exec = λ sql. pure true;
  prepare = λ sql n. (some tt, suc n);
  bind_text = λ s n t. pure tt;
  bind_int64 = λ s n z. pure tt;
  step = λ s. pure step_done;
  column_int64 = λ s n w. pos 0;
  column_text = λ s n w. [];
  finalize = λ s n. (tt, n - 1);
  last_insert_rowid = λ w. pos 1;
  changes = λ w. pos 1;
  now_iso8601 = pure (codes "2026-01-02T03:04:05Z");
}

counts : Statements counting
counts = record {
  live = λ n. n;
  live_bind_text = λ s n t w. refl;
  live_bind_int64 = λ s n z w. refl;
  live_step = λ s w. refl;
  live_now = λ w. refl;
  live_failed = λ sql w e. absurd (cc);
  live_prepared = λ sql s w e. refl;
  live_finalize = λ s w h. omega (arith, h);
}

sqlite_ops-AllBalanced_example : ((sqlite_ops counting 5).find_by_hash (codes "h") 3).1 ≡ 3
unfolding counts
sqlite_ops-AllBalanced_example = (sqlite_ops-AllBalanced counting counts 5).0 (codes "h") 3

-- The world is the number of files that are open; each holds four bytes.
abbrev counting_fs : FileSystem ℕ
counting_fs = record {
  File = Unit {0};
  stat = λ path. pure true;
  mkdir = λ path. pure true;
  remove = λ path. pure removed;
  fopen = λ path mode n. (some tt, suc n);
  fwrite = λ f b. pure (length b);
  file_size = λ f. pure (pos 4);
  fread = λ f n. pure (codes "MILK");
  fclose = λ f n. (true, n - 1);
}

counting_fs-OpenFiles : OpenFiles counting_fs
counting_fs-OpenFiles = record {
  live = λ n. n;
  live_stat = λ path w. refl;
  live_mkdir = λ path w. refl;
  live_remove = λ path w. refl;
  live_failed = λ path mode w e. absurd (cc);
  live_opened = λ path mode f w e. refl;
  live_write = λ f b w. refl;
  live_size = λ f w. refl;
  live_read = λ f n w. refl;
  live_close = λ f w h. omega (arith, h);
}

-- The world holds the files by their names.
abbrev Disk : Type 0
Disk = Text → Option Bytes

abbrev put : Text → Bytes → Call Disk Bool
put name b disk = (true, λ q. if text_eq q name then some b else disk q)

abbrev get : Text → Call Disk (Option Bytes)
get name disk = (not_empty (disk name), disk)

abbrev disk_storage : StorageBackend Disk
disk_storage = record {
  save_file = put;
  save_text = put;
  file_exists = λ name disk. (is_some (disk name), disk);
  delete_file = λ name. pure false;
  read_text = get;
  read_binary = get;
  get_public_url = λ name. pure none;
}

disk_storage-Contents : Contents disk_storage
disk_storage-Contents = record {
  file = λ disk name. disk name;
  save_lem = λ name b w n h. let e = (text_eq_iff name name).1 refl in rw e refl;
  save_other_lem = λ name other b w n m h. elim (Bool-cases (text_eq other name)) [
    | inl e ↦ absurd (h ((text_eq_iff other name).0 e))
    | inr e ↦ rw e refl
  ];
  save_text_lem = λ name b w. refl;
  read_lem = λ name w. refl;
  read_text_lem = λ name w. refl;
}

abbrev empty_disk : Disk
empty_disk name = none

stores :
    (store_text disk_storage
      (some (codes "a.jpg"))
      (some (codes "ocr"))
      (some (codes "MILK"))
      empty_disk).0
    ≡ doc_ok tt
unfolding store_text stored
stores = refl

parsed_IsOther : IsOther (codes "a.jpg") (codes "ocr") (codes "a.jpg") (codes "parsed")
unfolding IsOther
parsed_IsOther = inl (refl, λ e. absurd (let k = ap (length {0}) e in omega (arith, k)))

doc_read_text-store_text_example :
    let w =
      (store_text disk_storage
        (some (codes "a.jpg"))
        (some (codes "ocr"))
        (some (codes "MILK"))
        empty_disk).1 in
    ((doc_read_text disk_storage (some (codes "a.jpg")) (some (codes "ocr")) w).0
      ≡ some (codes "MILK"))
    × ((doc_read_text disk_storage (some (codes "a.jpg")) (some (codes "parsed")) w).0
        ≡ (doc_read_text disk_storage (some (codes "a.jpg")) (some (codes "parsed")) empty_disk).0)
doc_read_text-store_text_example =
    doc_read_text-store_text disk_storage disk_storage-Contents (codes "a.jpg") (codes "ocr")
      (codes "a.jpg") (codes "parsed") (codes "MILK") empty_disk (omega arith) (omega arith)
      parsed_IsOther (λ e. absurd (cc)) stores

-- The world is the number of results that are alive; a statement returns one row.
abbrev one_row : Libpq ℕ
one_row = record {
  Res = Unit {0};
  connect = λ info. pure true;
  finish = pure tt;
  exec_params = λ sql params n. (tt, suc n);
  status = λ res w. tuples_ok;
  ntuples = λ res w. 1;
  getvalue = λ res row n w. codes "7";
  cmd_tuples = λ res w. codes "1";
  clear = λ res n. (tt, n - 1);
  now_iso8601 = pure (codes "2026-01-02T03:04:05Z");
}

one_row-Results : Results one_row
one_row-Results = record {
  live = λ n. n;
  live_exec = λ sql params w. refl;
  live_clear = λ res w h. omega (arith, h);
  live_now = λ w. refl;
  live_connect = λ info w. refl;
}

postgres_ops-AllBalanced_example : ((postgres_ops one_row).find_by_id (pos 7) 3).1 ≡ 3
unfolding one_row-Results
postgres_ops-AllBalanced_example = (postgres_ops-AllBalanced one_row one_row-Results).1 (pos 7) 3
