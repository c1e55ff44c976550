-- ===== src/Processor/Upload/Invariant.antt =====
-- Invariants of `processor_handle_file`, src/processor.c.
use kaufbot.Prelude.{
  length, ◌<◌, ◌++◌, arith, ℕ, suc, ◌≡◌, refl, Bool, true, false, Option, none, some, ℤ, Keeps,
}
use kaufbot.CText.{Text, length-copy_to}
use kaufbot.Storage.FileName.{extension, upload_stem, gen_filename}
use kaufbot.Extern.{Doubles, Cjson}
use kaufbot.Backend.{
  Bytes, FileRecord, RepoResult, repo_ok, repo_err, not_found, OcrResult, ocr_ok, ocr_err,
  max_filename,
}
use kaufbot.Storage.Sha256.{sha256_hex}
use kaufbot.Processor.Defs.{Processor, Step, proceed, stop}
use kaufbot.Processor.Frame.{KeptByReads}
use kaufbot.Processor.Receipt.Keeps.{build_reply-keeps}
use kaufbot.Processor.Upload.{
  after_save, save_file, after_extract, run_ocr, after_parse, parse_receipt, upload_reply,
  upload_parsed, upload_extracted, upload_saved, upload_new, upload_duplicate, upload_checked,
  upload, handle_file,
}

-- `Saved w name` says that the file `name` is there: a write that succeeds, under a name that fits
-- its buffer, makes it so. The invariant `P` is kept by an insertion for a file that is there.
pub record UploadLaws {W : Type 0} (p : Processor W) (P : W → Type 0) (Saved : W → Text → Type 0)
    : Type 0 where
  pub reads : KeptByReads p P
  pub save_file : (name : Text) (b : Bytes) → Keeps P (p.storage.save_file name b)
  pub save_text : (name text : Text) → Keeps P (p.storage.save_text name text)
  pub file_saved :
      (name : Text) (b : Bytes) (w : W)
      → length name < max_filename
      → (p.storage.save_file name b w).0 ≡ true
      → Saved (p.storage.save_file name b w).1 name
  pub insert :
      (original hash name : Text) (w : W)
      → Saved w name
      → P w
      → P (p.repo.insert original hash name w).1

module _ {d : Doubles} (cj : Cjson d) {W : Type 0} (p : Processor W) {P : W → Type 0}
    {Saved : W → Text → Type 0} (k : UploadLaws p P Saved) where
  after_save-keeps :
      (original : Text) (b : Bytes) (hash : Text) (size : ℕ) (name : Text) (done : Bool) (w : W)
      → (done ≡ true → Saved w name)
      → P w
      → P (after_save p original b hash size name done w).1
  unfolding after_save
  after_save-keeps original b hash size name false w saved h = h
  after_save-keeps original b hash size name true w saved h =
      k.insert original hash name w (saved refl) h

  save_file-keeps :
      (original : Text) (b : Bytes) (hash : Text) (size : ℕ)
      → Keeps P (save_file p original b hash size)
  unfolding save_file gen_filename
  save_file-keeps original b hash size w h =
      let (now, w₁) = p.local_time w in
      let name = gen_filename now (extension original) max_filename in
      let fits : length name < max_filename =
        omega (arith, length-copy_to max_filename (upload_stem now ++ extension original)) in
      let (done, w₂) = p.storage.save_file name b w₁ in
      after_save-keeps original b hash size name done w₂ (k.file_saved name b w₁ fits)
        (k.save_file name b w₁ (k.reads.time w h))

  after_extract-keeps :
      (original : Text) (b : Bytes) (rec : FileRecord) (size : ℕ) (r : OcrResult)
      → Keeps P (after_extract p original b rec size r)
  unfolding after_extract
  after_extract-keeps original b rec size (ocr_err e) w h = h
  after_extract-keeps original b rec size (ocr_ok text) w h =
      k.reads.mark_ocr rec.id _ _ (k.save_text _ text w h)

  after_parse-keeps :
      (id : ℤ) (failure : Text) (size : ℕ) (r : OcrResult)
      → Keeps P (after_parse p id failure size r)
  unfolding after_parse
  after_parse-keeps id failure size (ocr_err e) w h = h
  after_parse-keeps id failure size (ocr_ok json) w h = k.reads.mark_parsing id json w h

  upload_reply-keeps :
      (rec : FileRecord) (ocr_name original : Text) (n : ℕ) (o : Option cj.Node)
      → Keeps P (upload_reply cj p rec ocr_name original n o)
  unfolding upload_reply
  upload_reply-keeps rec ocr_name original n none w h = h
  upload_reply-keeps rec ocr_name original n (some json) w h =
      build_reply-keeps cj p k.reads json rec.id _ rec.saved_file_name ocr_name _
        (k.reads.tokens w h)

  upload_parsed-keeps :
      (original : Text) (b : Bytes) (rec : FileRecord) (size : ℕ) (s : Step Text)
      → Keeps P (upload_parsed cj p original b rec size s)
  unfolding upload_parsed
  upload_parsed-keeps original b rec size (stop reply) w h = h
  upload_parsed-keeps original b rec size (proceed json) w h =
      upload_reply-keeps rec _ original _ (cj.parse json) w h

  upload_extracted-keeps :
      (original : Text) (b : Bytes) (rec : FileRecord) (size : ℕ) (s : Step Text)
      → Keeps P (upload_extracted cj p original b rec size s)
  unfolding upload_extracted parse_receipt
  upload_extracted-keeps original b rec size (stop reply) w h = h
  upload_extracted-keeps original b rec size (proceed text) w h =
      upload_parsed-keeps original b rec size _ _
        (after_parse-keeps rec.id _ size _ _ (k.reads.parse text w h))

  pub upload_saved-keeps :
      (original : Text) (b : Bytes) (size : ℕ) (s : Step FileRecord)
      → Keeps P (upload_saved cj p original b size s)
  unfolding upload_saved run_ocr
  upload_saved-keeps original b size (stop reply) w h = h
  upload_saved-keeps original b size (proceed rec) w h =
      upload_extracted-keeps original b rec size _ _
        (after_extract-keeps original b rec size _ _ (k.reads.extract b original w h))

  upload_new-keeps :
      (original : Text) (b : Bytes) (hash : Text) (size : ℕ)
      → Keeps P (upload_new cj p original b hash size)
  unfolding upload_new
  upload_new-keeps original b hash size w h =
      upload_saved-keeps original b size _ _ (save_file-keeps original b hash size w h)

  upload_duplicate-keeps :
      (original : Text) (b : Bytes) (hash : Text) (size : ℕ) (s : Bool × Text)
      → Keeps P (upload_duplicate cj p original b hash size s)
  unfolding upload_duplicate
  upload_duplicate-keeps original b hash size (true, reply) w h =
      upload_new-keeps original b hash size w h
  upload_duplicate-keeps original b hash size (false, reply) w h = h

  upload_checked-keeps :
      (original : Text) (b : Bytes) (hash : Text) (size : ℕ) (r : RepoResult FileRecord)
      → Keeps P (upload_checked cj p original b hash size r)
  unfolding upload_checked
  upload_checked-keeps original b hash size (repo_ok rec) w h =
      upload_duplicate-keeps original b hash size (p.dup_strategy rec size) w h
  upload_checked-keeps original b hash size (repo_err not_found) w h =
      upload_new-keeps original b hash size w h
  upload_checked-keeps original b hash size (repo_err e) w h = h

  -- An upload, whatever its outcome, keeps an invariant that the other calls of its collaborators
  -- keep, and an insertion keeps for a file that is there: the record of a file is inserted only
  -- after the file was saved, under a name that fits its buffer.
  pub handle_file-keeps :
      (original : Option Text) (b : Option Bytes) (size : ℕ)
      → Keeps P (handle_file cj p original b size)
  unfolding handle_file upload
  handle_file-keeps (some original) (some b) (suc size) w h =
      upload_checked-keeps original b (sha256_hex b) (suc size) _ _
        (k.reads.find_by_hash (sha256_hex b) w h)
  handle_file-keeps _ _ _ w h = h
