-- ===== src/Processor/Upload.antt =====
-- `processor_handle_file` and its steps, src/processor.c.
pub mod Invariant
pub mod Duplicate
use kaufbot.Prelude.{
  Bool, true, false, ℕ, suc, true, false, Option, none, some, [], length, ℤ, pos, Call, pure, ◌>>=◌,
  ◌>>◌, if◌then◌else◌,
}
use kaufbot.CText.{Text, codes, copy_to}
use kaufbot.Extern.{Doubles, Cjson}
use kaufbot.Storage.FileName.{extension, gen_filename, ocr_filename}
use kaufbot.Storage.Sha256.{sha256_hex}
use kaufbot.Backend.{
  Bytes, FileRecord, RepoResult, repo_ok, repo_err, not_found, OcrResult, ocr_ok, ocr_err,
  max_filename, db_filename_len, db_hash_len, db_orig_name_len,
}
use kaufbot.Processor.Defs.{Processor, Step, proceed, stop}
use kaufbot.Processor.Messages.{upload_ocr_failed, upload_parsing_failed, upload_bad_json}
use kaufbot.Processor.Receipt.{build_reply}

-- What `processor_handle_file` leaves behind: the text in `reply_buf`, if it was written, and
-- `*out_id`.
pub record Outcome : Type 0 where
  pub reply : Option Text
  pub out_id : ℤ

-- The record that `processor_save_file` fills in.
new_record : Text → Text → Text → ℕ → ℤ → FileRecord
new_record original_name hash saved_name data_len id = record {
  id = id;
  original_file_name = copy_to db_orig_name_len original_name;
  file_size_bytes = pos data_len;
  saved_file_name = copy_to db_filename_len saved_name;
  file_hash = copy_to db_hash_len hash;
  is_ocr_processed = false;
  ocr_file_name = [];
  created_at = [];
  updated_at = [];
}

-- The end of `processor_save_file`, on what `file_repo_insert` returned.
after_insert : ℕ → (ℤ → FileRecord) → RepoResult ℤ → Step FileRecord
after_insert size rec (repo_ok id) = proceed (rec id)
after_insert size rec (repo_err e) =
    stop (copy_to size (codes "Database error while saving file record."))

module _ {W : Type 0} (p : Processor W) where
  -- What follows the write to the storage.
  after_save : Text → Bytes → Text → ℕ → Text → Bool → Call W (Step FileRecord)
  unfolding after_insert new_record
  after_save original_name data_bytes hash size saved_name false =
      pure (stop (copy_to size (codes "Failed to save file to storage.")))
  after_save original_name data_bytes hash size saved_name true = do
    r ← p.repo.insert original_name hash saved_name
    pure (after_insert size (new_record original_name hash saved_name (length data_bytes)) r)

  -- `processor_save_file`
  save_file : Text → Bytes → Text → ℕ → Call W (Step FileRecord)
  unfolding after_save
  save_file original_name data_bytes hash size = do
    now ← p.local_time
    let saved_name = gen_filename now (extension original_name) max_filename
    saved ← p.storage.save_file saved_name data_bytes
    after_save original_name data_bytes hash size saved_name saved

  -- The end of `processor_run_ocr`: a failed write of the text or of the mark is only logged.
  after_extract : Text → Bytes → FileRecord → ℕ → OcrResult → Call W (Step Text)
  after_extract original_name data_bytes rec size (ocr_err e) = pure (
      stop (copy_to size (upload_ocr_failed rec.saved_file_name original_name (length data_bytes))))
  after_extract original_name data_bytes rec size (ocr_ok text) = do
    let ocr_name = ocr_filename rec.saved_file_name max_filename
    p.storage.save_text ocr_name text
    p.repo.mark_ocr_complete rec.id ocr_name
    pure (proceed text)

  -- `processor_run_ocr`
  run_ocr : Text → Bytes → FileRecord → ℕ → Call W (Step Text)
  unfolding after_extract
  run_ocr original_name data_bytes rec size = do
    r ← p.ocr.extract_text data_bytes original_name
    after_extract original_name data_bytes rec size r

  -- The end of `processor_parse_receipt`, with the reply for a failure.
  after_parse : ℤ → Text → ℕ → OcrResult → Call W (Step Text)
  after_parse file_id failure size (ocr_err e) = pure (stop (copy_to size failure))
  after_parse file_id failure size (ocr_ok parsed_json) = do
    p.repo.mark_parsing_complete file_id parsed_json
    pure (proceed parsed_json)

  -- `processor_parse_receipt`
  parse_receipt : ℤ → Text → Text → ℕ → Call W (Step Text)
  unfolding after_parse
  parse_receipt file_id ocr_text failure size = do
    r ← p.ocr.parse_receipt ocr_text
    after_parse file_id failure size r

module _ {d : Doubles} (cj : Cjson d) {W : Type 0} (p : Processor W) where
  -- The reply on the parsed text: the receipt, or a warning that it is no JSON.
  upload_reply : FileRecord → Text → Text → ℕ → Option cj.Node → Call W Text
  upload_reply rec ocr_name original_name data_len none =
      pure (upload_bad_json rec.saved_file_name ocr_name original_name data_len rec.id)
  upload_reply rec ocr_name original_name data_len (some json) = do
    tokens ← p.ocr.get_last_tokens
    msg ← build_reply cj json rec.id tokens (some p.storage) rec.saved_file_name ocr_name
    pure msg.out.text

  upload_parsed : Text → Bytes → FileRecord → ℕ → Step Text → Call W Text
  unfolding upload_reply
  upload_parsed original_name data_bytes rec size (stop reply) = pure reply
  upload_parsed original_name data_bytes rec size (proceed parsed_json) = do
    let ocr_name = ocr_filename rec.saved_file_name max_filename
    reply ← upload_reply rec ocr_name original_name (length data_bytes) (cj.parse parsed_json)
    pure (copy_to size reply)

  -- From the OCR text on.
  upload_extracted : Text → Bytes → FileRecord → ℕ → Step Text → Call W Text
  unfolding parse_receipt upload_parsed
  upload_extracted original_name data_bytes rec size (stop reply) = pure reply
  upload_extracted original_name data_bytes rec size (proceed ocr_text) = do
    let ocr_name = ocr_filename rec.saved_file_name max_filename
    let failure =
        upload_parsing_failed rec.saved_file_name ocr_name original_name (length data_bytes)
    parsed ← parse_receipt p rec.id ocr_text failure size
    upload_parsed original_name data_bytes rec size parsed

  -- From the saved file on: `*out_id` is set whatever follows.
  pub upload_saved : Text → Bytes → ℕ → Step FileRecord → Call W Outcome
  unfolding run_ocr upload_extracted
  upload_saved original_name data_bytes size (stop reply) =
      pure (record { reply = some reply; out_id = pos 0 })
  upload_saved original_name data_bytes size (proceed rec) = do
    extracted ← run_ocr p original_name data_bytes rec size
    reply ← upload_extracted original_name data_bytes rec size extracted
    pure (record { reply = some reply; out_id = rec.id })

  -- The pipeline for a file that is to be stored.
  upload_new : Text → Bytes → Text → ℕ → Call W Outcome
  unfolding save_file upload_saved
  upload_new original_name data_bytes hash size = do
    saved ← save_file p original_name data_bytes hash size
    upload_saved original_name data_bytes size saved

  upload_duplicate : Text → Bytes → Text → ℕ → Bool × Text → Call W Outcome
  unfolding upload_new
  upload_duplicate original_name data_bytes hash size (true, reply) =
      upload_new original_name data_bytes hash size
  upload_duplicate original_name data_bytes hash size (false, reply) =
      pure (record { reply = some reply; out_id = pos 0 })

  -- What follows the search for a duplicate.
  upload_checked : Text → Bytes → Text → ℕ → RepoResult FileRecord → Call W Outcome
  unfolding upload_duplicate
  upload_checked original_name data_bytes hash size (repo_ok existing) =
      upload_duplicate original_name data_bytes hash size (p.dup_strategy existing size)
  upload_checked original_name data_bytes hash size (repo_err not_found) =
      upload_new original_name data_bytes hash size
  upload_checked original_name data_bytes hash size (repo_err e) = pure (record {
    reply = some (copy_to size (codes "Database error while checking for duplicates."));
    out_id = pos 0;
  })

  upload : Text → Bytes → ℕ → Call W Outcome
  unfolding upload_checked
  upload original_name data_bytes size = do
    let hash = sha256_hex data_bytes
    existing ← p.repo.find_by_hash hash
    upload_checked original_name data_bytes hash size existing

  -- `processor_handle_file`, with NULL as `none`; `size` is `reply_buf_len`.
  unfoldable pub handle_file : Option Text → Option Bytes → ℕ → Call W Outcome
  unfolding upload
  handle_file (some original_name) (some data_bytes) (suc size) =
      upload original_name data_bytes (suc size)
  handle_file _ _ _ = pure (record { reply = none; out_id = pos 0 })
