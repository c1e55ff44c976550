-- ===== src/Storage/Local.antt =====
-- The local storage of src/storage/storage_local.c.
pub mod Closed
use kaufbot.Prelude.{
  ℕ, ◌*◌, Bool, true, false, Option, none, some, List, [], ◌∷◌, ◌++◌, length, ◌==◌, if◌then◌else◌,
  Call, pure, ◌>>=◌, ◌>>◌, ℤ, pos, pos_part, leb_ℤ,
}
use kaufbot.CText.{Text, codes, copy_to}
use kaufbot.Backend.{Bytes, StorageBackend}
use kaufbot.Config.{max_path_len}

-- What `remove` returns, by its `errno`.
pub data Removal : Type 0 where
  removed not_found not_removed : Removal

-- The calls of <stdio.h> and <sys/stat.h>. `mkdir` is true where it returns 0 or `EEXIST`, and
-- `fclose` where it returns 0. `file_size` is `fseek` to the end, `ftell` and `fseek` to the start.
-- `fwrite` returns the number of bytes that it has taken, and `fread` the bytes that it has got, of so
-- many that are asked for.
pub record FileSystem (W : Type 0) : Type 1 where
  pub File : Type 0
  pub stat : Text → Call W Bool
  pub mkdir : Text → Call W Bool
  pub remove : Text → Call W Removal
  pub fopen : Text → Text → Call W (Option File)
  pub fwrite : File → Bytes → Call W ℕ
  pub file_size : File → Call W ℤ
  pub fread : File → ℕ → Call W Bytes
  pub fclose : File → Call W Bool

-- `LocalStorage`
pub record LocalStorage : Type 0 where
  pub base_path : Text

-- `local_open`
unfoldable pub local_open : Text → LocalStorage
local_open storage_path = record { base_path = copy_to max_path_len storage_path }

unfoldable pub full_path : LocalStorage → Text → Text
full_path st filename = copy_to (max_path_len * 2) (st.base_path ++ b'/' ∷ filename)

-- `local_delete_file` returns 0.
unfoldable pub is_removed : Removal → Bool
is_removed removed = true
is_removed not_found = false
is_removed not_removed = false

module _ {W : Type 0} (fs : FileSystem W) where
  mkdir_then : Call W Bool → Bool → Call W Bool
  mkdir_then rest true = rest
  mkdir_then rest false = pure false

  -- The loop of `mkdir_p`, with what stands in front of `p`.
  unfoldable pub mkdir_walk : Text → Text → Call W Bool
  unfolding mkdir_then
  mkdir_walk prefix [] = fs.mkdir prefix
  mkdir_walk prefix (c ∷ cs) =
      let rest = mkdir_walk (prefix ++ c ∷ []) cs in
      if c == b'/' then (do ok ← fs.mkdir prefix; mkdir_then rest ok) else rest

  -- `mkdir_p`, whose scan begins behind a slash that the path begins with
  unfoldable pub mkdir_p : Text → Call W Bool
  unfolding mkdir_walk
  mkdir_p [] = mkdir_walk [] []
  mkdir_p (c ∷ cs) = if c == b'/' then mkdir_walk (c ∷ []) cs else mkdir_walk [] (c ∷ cs)

  ensure : Text → Bool → Call W Bool
  unfolding mkdir_p
  ensure path true = pure true
  ensure path false = mkdir_p path

  module _ (st : LocalStorage) where
    -- `local_ensure_dirs`, and `storage_ensure_dirs`
    unfoldable pub local_ensure_dirs : Call W Bool
    unfolding ensure
    local_ensure_dirs = do there ← fs.stat st.base_path; ensure st.base_path there

    -- Behind `fopen`: what `fclose` returns is not looked at.
    write_opened : Bytes → Option fs.File → Call W Bool
    write_opened b none = pure false
    write_opened b (some f) = do written ← fs.fwrite f b; fs.fclose f; pure (written == length b)

    -- `local_save_file`, and `storage_save_file`
    unfoldable pub local_save_file : Text → Bytes → Call W Bool
    unfolding full_path write_opened
    local_save_file filename b = do
      f ← fs.fopen (full_path st filename) (codes "wb")
      write_opened b f

    -- `local_file_exists`
    unfoldable pub local_file_exists : Text → Call W Bool
    unfolding full_path
    local_file_exists filename = fs.stat (full_path st filename)

    -- `local_delete_file`
    unfoldable pub local_delete_file : Text → Call W Removal
    unfolding full_path
    local_delete_file filename = fs.remove (full_path st filename)

    -- The bytes of a file of some size; fewer than its size are no error.
    read_sized : fs.File → ℤ → Call W (Option Bytes)
    read_sized f size =
        if leb_ℤ size (pos 0)
        then (do fs.fclose f; pure none)
        else (do b ← fs.fread f (pos_part size); fs.fclose f; pure (some b))

    read_opened : Option fs.File → Call W (Option Bytes)
    unfolding read_sized
    read_opened none = pure none
    read_opened (some f) = do size ← fs.file_size f; read_sized f size

    -- `local_read_text`, which opens with "r", and `local_read_binary`, which opens with "rb"
    unfoldable pub local_read : Text → Text → Call W (Option Bytes)
    unfolding full_path read_opened
    local_read mode filename = do f ← fs.fopen (full_path st filename) mode; read_opened f

    -- `local_ops`
    unfoldable pub local_ops : StorageBackend W
    unfolding local_save_file local_file_exists local_delete_file local_read is_removed
    local_ops = record {
      save_file = local_save_file;
      save_text = local_save_file;
      file_exists = local_file_exists;
      delete_file = λ filename. do
        r ← local_delete_file filename
        pure (is_removed r);
      read_text = local_read (codes "r");
      read_binary = local_read (codes "rb");
      get_public_url = λ filename. pure none;
    }
