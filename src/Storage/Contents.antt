-- ===== src/Storage/Contents.antt =====
-- What a client of src/storage/storage_backend.h may count on: the calls of the table act on files
-- with names.
use kaufbot.Prelude.{◌<◌, ◌≡◌, ◌≢◌, refl, ap, sym, ◌∙◌, true, Option, none, some, [], ◌∷◌, length}
use kaufbot.CText.{Text}
use kaufbot.Backend.{Bytes, StorageBackend, max_filename}

-- A file without bytes is read as no file.
abbrev pub not_empty : Option Bytes → Option Bytes
not_empty none = none
not_empty (some []) = none
not_empty (some (b ∷ bs)) = some (b ∷ bs)

-- A name that fits `MAX_FILENAME`.
abbrev pub IsName : Text → Type 0
IsName name = length name < max_filename

-- A storage whose worlds hold files: what it says it has saved is there, other files stay, and a read
-- of a file does not fail.
pub record Contents {W : Type 0} (s : StorageBackend W) : Type 0 where
  pub file : W → Text → Option Bytes
  pub save_lem :
      (name : Text) (b : Bytes) (w : W)
      → IsName name
      → (s.save_file name b w).0 ≡ true
      → file (s.save_file name b w).1 name ≡ some b
  pub save_other_lem :
      (name other : Text) (b : Bytes) (w : W)
      → IsName name
      → IsName other
      → other ≢ name
      → file (s.save_file name b w).1 other ≡ file w other
  pub save_text_lem :
      (name : Text) (b : Bytes) (w : W) → s.save_text name b w ≡ s.save_file name b w
  pub read_lem : (name : Text) (w : W) → s.read_binary name w ≡ (not_empty (file w name), w)
  pub read_text_lem : (name : Text) (w : W) → s.read_text name w ≡ s.read_binary name w

not_empty_of : (b : Bytes) → b ≢ [] → not_empty (some b) ≡ some b
not_empty_of [] h = absurd (h refl)
not_empty_of (x ∷ xs) h = refl

module _ {W : Type 0} {s : StorageBackend W} (c : Contents s) where
  -- What was saved under a name is read back.
  pub read-save :
      (name : Text) (b : Bytes) (w : W)
      → IsName name
      → b ≢ []
      → (s.save_file name b w).0 ≡ true
      → s.read_binary name (s.save_file name b w).1 ≡ (some b, (s.save_file name b w).1)
  read-save name b w n full h =
      let w' = (s.save_file name b w).1 in
      c.read_lem name w'
      ∙ ap (λ o. (o, w')) (ap not_empty (c.save_lem name b w n h) ∙ not_empty_of b full)

  -- It leaves what is read under other names.
  pub read-save_other :
      (name other : Text) (b : Bytes) (w : W)
      → IsName name
      → IsName other
      → other ≢ name
      → (s.read_binary other (s.save_file name b w).1).0 ≡ (s.read_binary other w).0
  read-save_other name other b w n m h =
      ap (λ r. r.0) (c.read_lem other (s.save_file name b w).1)
      ∙ ap not_empty (c.save_other_lem name other b w n m h)
      ∙ sym (ap (λ r. r.0) (c.read_lem other w))
