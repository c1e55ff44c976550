-- ===== src/Processor/Upload/Duplicate.antt =====
-- Duplicate detection across two uploads, src/processor.c.
use kaufbot.Prelude.{ℕ, suc, ◌<◌, ◌≡◌, refl, ◌≢◌, Bool, true, false, some, ℤ, pos, arith, length}
use kaufbot.CText.{Text, copy_to}
use kaufbot.Extern.{Doubles, Cjson}
use kaufbot.Backend.{
  Bytes, FileRecord, RepoResult, repo_ok, repo_err, not_found, db_hash_len, max_filename,
}
use kaufbot.Storage.FileName.{extension, gen_filename}
use kaufbot.Storage.Sha256.{sha256_hex}
use kaufbot.Storage.Sha256.Digest.{length-sha256_hex}
use kaufbot.Processor.Defs.{Processor, Step, proceed, stop, notify_and_skip}
use kaufbot.Processor.Messages.{duplicate_detected}
use kaufbot.Processor.Upload.{
  after_insert, after_save, save_file, upload_saved, upload_new, upload_duplicate, upload_checked,
  upload, handle_file,
}
use kaufbot.Processor.Upload.Invariant.{UploadLaws, upload_saved-keeps}

-- `Known w h` says that the hash `h` was inserted: it stays known, and a lookup finds a record
-- with it. The repository stores a hash that fits its column.
pub record HashLaws {W : Type 0} (p : Processor W) (Known : W → Text → Type 0) : Type 0 where
  pub stays : (h : Text) → UploadLaws p (λ w. Known w h) (λ w name. Unit)
  pub inserted :
      (original h name : Text) (w : W) (id : ℤ)
      → length h < db_hash_len
      → (p.repo.insert original h name w).0 ≡ repo_ok id
      → Known (p.repo.insert original h name w).1 h
  pub found :
      (h : Text) (w : W)
      → Known w h
      → (r : FileRecord) × ((p.repo.find_by_hash h w).0 ≡ repo_ok r) × (r.file_hash ≡ h)

after_insert_proceeds :
    {rec : FileRecord} (size : ℕ) (make : ℤ → FileRecord) (r : RepoResult ℤ)
    → after_insert size make r ≡ proceed rec
    → (id : ℤ) × (r ≡ repo_ok id)
unfolding after_insert
after_insert_proceeds size make (repo_ok id) h = (id, refl)
after_insert_proceeds size make (repo_err e) h = cc

module _ {d : Doubles} (cj : Cjson d) {W : Type 0} (p : Processor W) {Known : W → Text → Type 0}
    (k : HashLaws p Known) where
  after_save-Known :
      (original : Text) (b : Bytes) (h : Text) (size : ℕ) (name : Text) (done : Bool) (w : W)
      (rec : FileRecord)
      → length h < db_hash_len
      → (after_save p original b h size name done w).0 ≡ proceed rec
      → Known (after_save p original b h size name done w).1 h
  unfolding after_save
  after_save-Known original b h size name false w rec fits e = cc
  after_save-Known original b h size name true w rec fits e =
      let (id, inserted) = after_insert_proceeds size _ _ e in
      k.inserted original h name w id fits inserted

  upload_saved-Known :
      (original : Text) (b : Bytes) (h : Text) (size : ℕ) (s : Step FileRecord) (w : W)
      → ((rec : FileRecord) → s ≡ proceed rec → Known w h)
      → (upload_saved cj p original b size s w).0.out_id ≢ pos 0
      → Known (upload_saved cj p original b size s w).1 h
  upload_saved-Known original b h size (stop reply) w known ne =
      absurd (ne (unfold upload_saved in refl))
  upload_saved-Known original b h size (proceed rec) w known ne =
      upload_saved-keeps cj p (k.stays h) original b size (proceed rec) w (known rec refl)

  save_file-Known :
      (original : Text) (b : Bytes) (h : Text) (size : ℕ) (w : W) (rec : FileRecord)
      → length h < db_hash_len
      → (save_file p original b h size w).0 ≡ proceed rec
      → Known (save_file p original b h size w).1 h
  unfolding save_file
  save_file-Known original b h size w rec fits =
      let (now, w₁) = p.local_time w in
      let name = gen_filename now (extension original) max_filename in
      let (done, w₂) = p.storage.save_file name b w₁ in
      after_save-Known original b h size name done w₂ rec fits

  upload_new-Known :
      (original : Text) (b : Bytes) (h : Text) (size : ℕ) (w : W)
      → length h < db_hash_len
      → (upload_new cj p original b h size w).0.out_id ≢ pos 0
      → Known (upload_new cj p original b h size w).1 h
  unfolding upload_new
  upload_new-Known original b h size w fits =
      let (s, w') = save_file p original b h size w in
      upload_saved-Known original b h size s w'
        (λ rec e. save_file-Known original b h size w rec fits e)

  upload_duplicate-Known :
      (original : Text) (b : Bytes) (h : Text) (size : ℕ) (s : Bool × Text) (w : W)
      → length h < db_hash_len
      → (upload_duplicate cj p original b h size s w).0.out_id ≢ pos 0
      → Known (upload_duplicate cj p original b h size s w).1 h
  unfolding upload_duplicate
  upload_duplicate-Known original b h size (true, reply) w fits ne =
      upload_new-Known original b h size w fits ne
  upload_duplicate-Known original b h size (false, reply) w fits ne = absurd (ne refl)

  upload_checked-Known :
      (original : Text) (b : Bytes) (h : Text) (size : ℕ) (r : RepoResult FileRecord) (w : W)
      → length h < db_hash_len
      → (upload_checked cj p original b h size r w).0.out_id ≢ pos 0
      → Known (upload_checked cj p original b h size r w).1 h
  unfolding upload_checked
  upload_checked-Known original b h size (repo_ok rec) w fits ne =
      upload_duplicate-Known original b h size (p.dup_strategy rec size) w fits ne
  upload_checked-Known original b h size (repo_err not_found) w fits ne =
      upload_new-Known original b h size w fits ne
  upload_checked-Known original b h size (repo_err e) w fits ne = absurd (ne refl)

  -- What a known hash makes of an upload.
  upload-Known :
      (original : Text) (b : Bytes) (size : ℕ) (w : W)
      → p.dup_strategy ≡ notify_and_skip
      → Known w (sha256_hex b)
      → (r : FileRecord) × (r.file_hash ≡ sha256_hex b)
        × ((upload cj p original b size w).0
            ≡ record { reply = some (copy_to size (duplicate_detected r)); out_id = pos 0 })
  unfolding upload upload_checked upload_duplicate notify_and_skip
  upload-Known original b size w strategy known =
      let (r, e, same) = k.found (sha256_hex b) w known in
      (r, same, rw (e, upload_checked, strategy) refl)

  -- Over a repository that keeps the laws of hashes, and with the built-in strategy: after an upload
  -- that was given an id, the same bytes are answered with a notice on a record that has their
  -- hash, whatever names the two uploads carry, and are given no id.
  pub handle_file_again :
      (original again : Text) (b : Bytes) (size size' : ℕ) (w : W)
      → p.dup_strategy ≡ notify_and_skip
      → (handle_file cj p (some original) (some b) (suc size) w).0.out_id ≢ pos 0
      → (r : FileRecord) × (r.file_hash ≡ sha256_hex b)
        × ((handle_file cj p
              (some again)
              (some b)
              (suc size')
              (handle_file cj p (some original) (some b) (suc size) w).1).0
            ≡ record { reply = some (copy_to (suc size') (duplicate_detected r)); out_id = pos 0 })
  unfolding handle_file upload
  handle_file_again original again b size size' w strategy ne =
      upload-Known again b (suc size') _ strategy (
        upload_checked-Known original b (sha256_hex b) (suc size) _ _
          (omega (arith, length-sha256_hex b)) ne)
