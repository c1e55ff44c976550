-- ===== src/Storage/Local/Closed.antt =====
-- Every function of src/storage/storage_local.c closes the file that it opens.
use kaufbot.Prelude.{ℕ, suc, ◌<◌, ◌≡◌, Option, none, some, Call}
use kaufbot.CText.{Text}
use kaufbot.Backend.{Bytes}
use kaufbot.Storage.Local.{FileSystem, LocalStorage}

-- How many files the calls of the system leave open: a file is open from the `fopen` that succeeds
-- to its `fclose`, whatever that returns.
pub record OpenFiles {W : Type 0} (fs : FileSystem W) : Type 0 where
  pub live : W → ℕ
  pub live_stat : (path : Text) (w : W) → live (fs.stat path w).1 ≡ live w
  pub live_mkdir : (path : Text) (w : W) → live (fs.mkdir path w).1 ≡ live w
  pub live_remove : (path : Text) (w : W) → live (fs.remove path w).1 ≡ live w
  pub live_failed :
      (path mode : Text) (w : W)
      → (fs.fopen path mode w).0 ≡ none
      → live (fs.fopen path mode w).1 ≡ live w
  pub live_opened :
      (path mode : Text) (f : fs.File) (w : W)
      → (fs.fopen path mode w).0 ≡ some f
      → live (fs.fopen path mode w).1 ≡ suc (live w)
  pub live_write : (f : fs.File) (b : Bytes) (w : W) → live (fs.fwrite f b w).1 ≡ live w
  pub live_size : (f : fs.File) (w : W) → live (fs.file_size f w).1 ≡ live w
  pub live_read : (f : fs.File) (n : ℕ) (w : W) → live (fs.fread f n w).1 ≡ live w
  pub live_close : (f : fs.File) (w : W) → 0 < live w → live w ≡ suc (live (fs.fclose f w).1)

module _ {W : Type 0} (fs : FileSystem W) (l : OpenFiles fs) (st : LocalStorage) where
  -- A call with what `fopen` has returned closes the file, if there is one.
  abbrev Closes : {A : Type 0} → (Option fs.File → Call W A) → Type 0
  Closes m =
      ((w : W) → l.live (m none w).1 ≡ l.live w)
      × ((f : fs.File) (n : ℕ) (w : W) → l.live w ≡ suc n → l.live (m (some f) w).1 ≡ n)
