-- ===== src/Processor/Frame.antt =====
-- Frame rules for src/processor.c: what the calls of the collaborators leave alone, the pipeline
-- leaves alone.
use kaufbot.Prelude.{ℤ, Keeps}
use kaufbot.CText.{Text}
use kaufbot.Backend.{Bytes, read_text, read_binary}
use kaufbot.Processor.Defs.{Processor}

-- `P` is kept by every call of the collaborators but `save_file`, `save_text`, `insert`, `delete`.
pub record KeptByReads {W : Type 0} (p : Processor W) (P : W → Type 0) : Type 0 where
  pub time : Keeps P p.local_time
  pub find_by_hash : (h : Text) → Keeps P (p.repo.find_by_hash h)
  pub find_by_id : (id : ℤ) → Keeps P (p.repo.find_by_id id)
  pub mark_ocr : (id : ℤ) (name : Text) → Keeps P (p.repo.mark_ocr_complete id name)
  pub mark_parsing : (id : ℤ) (json : Text) → Keeps P (p.repo.mark_parsing_complete id json)
  pub read_ocr_text : (name : Text) → Keeps P (read_text p.repo.get_storage name)
  pub read_original : (name : Text) → Keeps P (read_binary p.repo.get_storage name)
  pub public_url : (name : Text) → Keeps P (p.storage.get_public_url name)
  pub extract : (b : Bytes) (name : Text) → Keeps P (p.ocr.extract_text b name)
  pub extract_with :
      (b : Bytes) (name model : Text) → Keeps P (p.ocr.extract_text_with_model b name model)
  pub parse : (text : Text) → Keeps P (p.ocr.parse_receipt text)
  pub tokens : Keeps P p.ocr.get_last_tokens
