-- ===== src/Processor/Retry/Keeps.antt =====
-- What the two retries (src/processor.c) leave alone.
use kaufbot.Prelude.{ℕ, zero, suc, Option, none, some, [], ◌∷◌, ℤ, Keeps}
use kaufbot.CText.{Text}
use kaufbot.Extern.{Doubles, Cjson}
use kaufbot.Backend.{FileRecord, Bytes, RepoResult, repo_ok, repo_err, OcrResult, ocr_ok, ocr_err}
use kaufbot.Processor.Defs.{Processor}
use kaufbot.Processor.Frame.{KeptByReads}
use kaufbot.Processor.Receipt.Keeps.{build_reply-keeps}
use kaufbot.Processor.Retry.{
  retry_json, retry_parsed, retry_text, retry_named, retry_found, model_json, retry_ocr,
  model_parsed, model_extracted, model_data, model_found, retry_ocr_with_model,
}

module _ {d : Doubles} (cj : Cjson d) {W : Type 0} (p : Processor W) {P : W → Type 0}
    (k : KeptByReads p P) where
  retry_json-keeps :
      (id : ℤ) (size : ℕ) (rec : FileRecord) (o : Option cj.Node)
      → Keeps P (retry_json cj p id size rec o)
  unfolding retry_json
  retry_json-keeps id size rec none w h = h
  retry_json-keeps id size rec (some json) w h =
      build_reply-keeps cj p k json rec.id _ rec.saved_file_name rec.ocr_file_name _ (k.tokens w h)

  retry_parsed-keeps :
      (id : ℤ) (size : ℕ) (rec : FileRecord) (r : OcrResult)
      → Keeps P (retry_parsed cj p id size rec r)
  unfolding retry_parsed
  retry_parsed-keeps id size rec (ocr_err e) w h = h
  retry_parsed-keeps id size rec (ocr_ok json) w h =
      retry_json-keeps id size rec (cj.parse json) _ (k.mark_parsing id json w h)

  retry_text-keeps :
      (id : ℤ) (size : ℕ) (rec : FileRecord) (o : Option Text)
      → Keeps P (retry_text cj p id size rec o)
  unfolding retry_text
  retry_text-keeps id size rec none w h = h
  retry_text-keeps id size rec (some text) w h =
      retry_parsed-keeps id size rec _ _ (k.parse text w h)

  retry_named-keeps :
      (id : ℤ) (size : ℕ) (rec : FileRecord) (name : Text)
      → Keeps P (retry_named cj p id size rec name)
  unfolding retry_named
  retry_named-keeps id size rec [] w h = h
  retry_named-keeps id size rec (c ∷ cs) w h =
      retry_text-keeps id size rec _ _ (k.read_ocr_text (c ∷ cs) w h)

  retry_found-keeps :
      (id : ℤ) (size : ℕ) (r : RepoResult FileRecord) → Keeps P (retry_found cj p id size r)
  unfolding retry_found
  retry_found-keeps id size (repo_err e) w h = h
  retry_found-keeps id size (repo_ok rec) w h = retry_named-keeps id size rec rec.ocr_file_name w h

  -- Whatever its outcome, a retry of the parser keeps every predicate of the world that the clock, the
  -- lookups, the reads of stored files and URLs, the two marks and the calls of the OCR service keep.
  pub retry_ocr-keeps : (id : ℤ) (size : ℕ) → Keeps P (retry_ocr cj p id size)
  unfolding retry_ocr
  retry_ocr-keeps id zero w h = h
  retry_ocr-keeps id (suc size) w h = retry_found-keeps id (suc size) _ _ (k.find_by_id id w h)

  module _ (save_text : (name text : Text) → Keeps P (p.storage.save_text name text)) where
    model_json-keeps :
        (id : ℤ) (model : Text) (size : ℕ) (rec : FileRecord) (o : Option cj.Node)
        → Keeps P (model_json cj p id model size rec o)
    unfolding model_json
    model_json-keeps id model size rec none w h = h
    model_json-keeps id model size rec (some json) w h =
        build_reply-keeps cj p k json rec.id _ rec.saved_file_name rec.ocr_file_name _
          (k.tokens w h)

    model_parsed-keeps :
        (id : ℤ) (model : Text) (size : ℕ) (rec : FileRecord) (r : OcrResult)
        → Keeps P (model_parsed cj p id model size rec r)
    unfolding model_parsed
    model_parsed-keeps id model size rec (ocr_err e) w h = h
    model_parsed-keeps id model size rec (ocr_ok json) w h =
        model_json-keeps id model size rec (cj.parse json) _ (k.mark_parsing id json w h)

    model_extracted-keeps :
        (id : ℤ) (model : Text) (size : ℕ) (rec : FileRecord) (r : OcrResult)
        → Keeps P (model_extracted cj p id model size rec r)
    unfolding model_extracted
    model_extracted-keeps id model size rec (ocr_err e) w h = h
    model_extracted-keeps id model size rec (ocr_ok text) w h =
        model_parsed-keeps id model size rec _ _
          (k.parse text _ (k.mark_ocr rec.id _ _ (save_text _ text w h)))

    model_data-keeps :
        (id : ℤ) (model : Text) (size : ℕ) (rec : FileRecord) (o : Option Bytes)
        → Keeps P (model_data cj p id model size rec o)
    unfolding model_data
    model_data-keeps id model size rec (some (x ∷ xs)) w h =
        model_extracted-keeps id model size rec _ _
          (k.extract_with (x ∷ xs) rec.original_file_name model w h)
    model_data-keeps id model size rec _ w h = h

    model_found-keeps :
        (id : ℤ) (model : Text) (size : ℕ) (r : RepoResult FileRecord)
        → Keeps P (model_found cj p id model size r)
    unfolding model_found
    model_found-keeps id model size (repo_err e) w h = h
    model_found-keeps id model size (repo_ok rec) w h =
        model_data-keeps id model size rec _ _ (k.read_original rec.saved_file_name w h)

    -- Whatever its outcome, a retry with a model keeps every predicate of the world that the clock, the
    -- lookups, the reads of stored files and URLs, the two marks, the calls of the OCR service and the
    -- write of a text file keep.
    pub retry_ocr_with_model-keeps :
        (id : ℤ) (model : Option Text) (size : ℕ)
        → Keeps P (retry_ocr_with_model cj p id model size)
    unfolding retry_ocr_with_model
    retry_ocr_with_model-keeps id (some model) (suc size) w h =
        model_found-keeps id model (suc size) _ _ (k.find_by_id id w h)
    retry_ocr_with_model-keeps id _ _ w h = h
