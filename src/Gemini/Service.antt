-- ===== src/Gemini/Service.antt =====
-- src/ocr/ocr_service.c: the OCR service over the client of the Gemini API.
pub mod Fallback
use kaufbot.Prelude.{
  Bool, true, false, Option, none, some, ℤ, Call, pure, ◌>>=◌, ◌>>◌, is_some, if◌then◌else◌,
}
use kaufbot.CText.{Text, codes}
use kaufbot.CText.Search.{strstr}
use kaufbot.Extern.{Doubles, Cjson}
use kaufbot.Backend.{Bytes, OcrResult, ocr_ok, ocr_err, ocr_api, ocr_no_text, ocr_parse, OcrService}
use kaufbot.Gemini.Defs.{GeminiClient, GeminiEnv}
use kaufbot.Gemini.Extract.{
  gemini_extract_text, gemini_extract_text_with_model, gemini_parse_receipt,
}

abbrev pub no_text_marker : Text
no_text_marker = codes "[NO TEXT FOUND]"

-- What the service makes of an extracted text.
unfoldable pub extracted : Option Text → OcrResult
extracted none = ocr_err ocr_api
extracted (some text) =
    if is_some (strstr no_text_marker text) then ocr_err ocr_no_text else ocr_ok text

unfoldable pub parsed_json : Option Text → OcrResult
parsed_json none = ocr_err ocr_parse
parsed_json (some json) = ocr_ok json

module _ {d : Doubles} (cj : Cjson d) {S : Type 0} (env : GeminiEnv d S) where
  -- `gemini_ocr_extract_text`
  unfoldable pub gemini_ocr_extract_text : Bytes → Text → Call (GeminiClient × S) OcrResult
  unfolding extracted
  gemini_ocr_extract_text b filename = do
    text ← gemini_extract_text cj env b filename
    pure (extracted text)

  -- `gemini_ocr_extract_text_with_model`
  unfoldable pub gemini_ocr_extract_text_with_model :
      Bytes → Text → Text → Call (GeminiClient × S) OcrResult
  unfolding extracted
  gemini_ocr_extract_text_with_model b filename model = do
    text ← gemini_extract_text_with_model cj env b filename model
    pure (extracted text)

  -- `gemini_ocr_parse_receipt`
  unfoldable pub gemini_ocr_parse_receipt : Text → Call (GeminiClient × S) OcrResult
  unfolding parsed_json
  gemini_ocr_parse_receipt ocr_text = do
    json ← gemini_parse_receipt cj env ocr_text
    pure (parsed_json json)

  -- `gemini_ocr_get_last_tokens`
  unfoldable pub gemini_ocr_get_last_tokens : Call (GeminiClient × S) ℤ
  gemini_ocr_get_last_tokens (c, s) = (c.last_total_tokens, (c, s))

  -- `gemini_ocr_ops`
  abbrev pub gemini_ocr : OcrService (GeminiClient × S)
  gemini_ocr = record {
    extract_text = gemini_ocr_extract_text;
    extract_text_with_model = gemini_ocr_extract_text_with_model;
    parse_receipt = gemini_ocr_parse_receipt;
    get_last_tokens = gemini_ocr_get_last_tokens;
  }
