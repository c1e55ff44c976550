-- ===== src/Processor/Retry.antt =====
-- `processor_retry_ocr` and `processor_retry_ocr_with_model`, src/processor.c.
pub mod Keeps
use kaufbot.Prelude.{
  ℕ, zero, suc, ◌+◌, ◌-◌, Bool, true, false, Option, none, some, [], ◌∷◌, ◌++◌, length, take, ltb,
  ℤ, Call, pure, ◌>>=◌, ◌>>◌, if◌then◌else◌,
}
use kaufbot.CText.{Text, codes, copy_to}
use kaufbot.Extern.{Doubles, Cjson}
use kaufbot.Storage.FileName.{ocr_filename}
use kaufbot.Reply.Builder.{is_empty, max_reply_text_len}
use kaufbot.Backend.{
  Bytes, FileRecord, RepoResult, repo_ok, repo_err, OcrResult, ocr_ok, ocr_err, max_filename,
  read_text, read_binary,
}
use kaufbot.Processor.Defs.{Processor}
use kaufbot.Processor.Messages.{
  retry_not_found, retry_notice, model_not_found, model_no_original, model_ocr_failed,
  model_parsing_failed, model_bad_json, model_trailer,
}
use kaufbot.Processor.Receipt.{build_reply}

-- Whether the C function returns 0, and the text in `reply_buf`, if it was written.
pub record RetryOutcome : Type 0 where
  pub succeeded : Bool
  pub reply : Option Text

abbrev refuse : ℕ → Text → RetryOutcome
refuse size text = record { succeeded = false; reply = some (copy_to size text) }

abbrev accept : ℕ → Text → RetryOutcome
accept size text = record { succeeded = true; reply = some (copy_to size text) }

module _ {d : Doubles} (cj : Cjson d) {W : Type 0} (p : Processor W) where
  -- The reply on the parsed text, which may be no JSON; the retry has succeeded either way.
  retry_json : ℤ → ℕ → FileRecord → Option cj.Node → Call W RetryOutcome
  retry_json file_id size rec none =
      pure
        (accept size (retry_notice (codes "Retry: Invalid JSON") rec.original_file_name file_id []))
  retry_json file_id size rec (some json) = do
    tokens ← p.ocr.get_last_tokens
    msg ← build_reply cj json rec.id tokens (some p.storage) rec.saved_file_name rec.ocr_file_name
    pure (accept size msg.out.text)

  -- From the answer of the parser on.
  retry_parsed : ℤ → ℕ → FileRecord → OcrResult → Call W RetryOutcome
  unfolding retry_json
  retry_parsed file_id size rec (ocr_err e) = pure (
      refuse size (
        retry_notice (codes "Retry failed") rec.original_file_name file_id
          (codes "\n\nParsing failed again.")))
  retry_parsed file_id size rec (ocr_ok parsed_json) = do
    p.repo.mark_parsing_complete file_id parsed_json
    retry_json file_id size rec (cj.parse parsed_json)

  -- From the stored OCR text on.
  retry_text : ℤ → ℕ → FileRecord → Option Text → Call W RetryOutcome
  unfolding retry_parsed
  retry_text file_id size rec none = pure (
      refuse size (
        retry_notice (codes "Cannot Retry") rec.original_file_name file_id
          (codes "\n\nOCR text file is missing. Please re-upload the file.")))
  retry_text file_id size rec (some ocr_text) = do
    r ← p.ocr.parse_receipt ocr_text
    retry_parsed file_id size rec r

  -- From the name of the OCR text in the record on.
  retry_named : ℤ → ℕ → FileRecord → Text → Call W RetryOutcome
  unfolding retry_text
  retry_named file_id size rec [] = pure (
      refuse size (
        retry_notice (codes "Cannot Retry") rec.original_file_name file_id
          (codes "\n\nNo OCR text available. Please re-upload the file.")))
  retry_named file_id size rec (c ∷ cs) = do
    text ← read_text p.repo.get_storage (c ∷ cs)
    retry_text file_id size rec text

  retry_found : ℤ → ℕ → RepoResult FileRecord → Call W RetryOutcome
  unfolding retry_named
  retry_found file_id size (repo_err e) = pure (refuse size (retry_not_found file_id))
  retry_found file_id size (repo_ok rec) = retry_named file_id size rec rec.ocr_file_name

  -- `processor_retry_ocr`; `size` is `reply_buf_len`.
  unfoldable pub retry_ocr : ℤ → ℕ → Call W RetryOutcome
  unfolding retry_found
  retry_ocr file_id zero = pure (record { succeeded = false; reply = none })
  retry_ocr file_id (suc size) = do r ← p.repo.find_by_id file_id; retry_found file_id (suc size) r

  -- The lines that are added below the receipt, if the caller's buffer has room for them.
  add_trailer : ℕ → ℤ → Text → Text → Text
  add_trailer size id model text =
      if ltb (length text + 64) size
      then text ++ take (max_reply_text_len - length text - 1) (model_trailer id model)
      else text

  model_json : ℤ → Text → ℕ → FileRecord → Option cj.Node → Call W RetryOutcome
  unfolding add_trailer
  model_json file_id model size rec none =
      pure (accept size (model_bad_json rec.original_file_name file_id model))
  model_json file_id model size rec (some json) = do
    tokens ← p.ocr.get_last_tokens
    msg ← build_reply cj json rec.id tokens (some p.storage) rec.saved_file_name rec.ocr_file_name
    pure (accept size (add_trailer size rec.id model msg.out.text))

  model_parsed : ℤ → Text → ℕ → FileRecord → OcrResult → Call W RetryOutcome
  unfolding model_json
  model_parsed file_id model size rec (ocr_err e) =
      pure (refuse size (model_parsing_failed rec.original_file_name file_id model))
  model_parsed file_id model size rec (ocr_ok parsed_json) = do
    p.repo.mark_parsing_complete file_id parsed_json
    model_json file_id model size rec (cj.parse parsed_json)

  model_extracted : ℤ → Text → ℕ → FileRecord → OcrResult → Call W RetryOutcome
  unfolding model_parsed
  model_extracted file_id model size rec (ocr_err e) =
      pure (refuse size (model_ocr_failed rec.original_file_name file_id model))
  model_extracted file_id model size rec (ocr_ok text) = do
    let ocr_name = ocr_filename rec.saved_file_name max_filename
    p.storage.save_text ocr_name text
    p.repo.mark_ocr_complete rec.id ocr_name
    r ← p.ocr.parse_receipt text
    model_parsed file_id model size rec r

  -- From the original file on; a file of no bytes counts as missing.
  model_data : ℤ → Text → ℕ → FileRecord → Option Bytes → Call W RetryOutcome
  unfolding model_extracted
  model_data file_id model size rec (some (x ∷ xs)) = do
    r ← p.ocr.extract_text_with_model (x ∷ xs) rec.original_file_name model
    model_extracted file_id model size rec r
  model_data file_id model size rec _ =
      pure (refuse size (model_no_original rec.original_file_name file_id))

  model_found : ℤ → Text → ℕ → RepoResult FileRecord → Call W RetryOutcome
  unfolding model_data
  model_found file_id model size (repo_err e) = pure (refuse size (model_not_found file_id))
  model_found file_id model size (repo_ok rec) = do
    data_bytes ← read_binary p.repo.get_storage rec.saved_file_name
    model_data file_id model size rec data_bytes

  -- `processor_retry_ocr_with_model`; `size` is `reply_buf_len`, and `model` may be NULL.
  unfoldable pub retry_ocr_with_model : ℤ → Option Text → ℕ → Call W RetryOutcome
  unfolding model_found
  retry_ocr_with_model file_id (some model) (suc size) = do
    r ← p.repo.find_by_id file_id
    model_found file_id model (suc size) r
  retry_ocr_with_model file_id _ _ = pure (record { succeeded = false; reply = none })
