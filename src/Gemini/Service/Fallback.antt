-- ===== src/Gemini/Service/Fallback.antt =====
-- The fallback of src/ocr/gemini.c as the OCR service of src/ocr/ocr_service.c uses it.
use kaufbot.Prelude.{◌≡◌, refl, ◌∙◌, Keeps}
use kaufbot.CText.{Text}
use kaufbot.Extern.{Doubles, Cjson}
use kaufbot.Backend.{Bytes}
use kaufbot.Gemini.Defs.{GeminiClient, GeminiEnv}
use kaufbot.Gemini.Response.Usage.{store_usage_same}
use kaufbot.Gemini.Extract.{set_model, gemini_extract_text_with_model, gemini_extract_text}
use kaufbot.Gemini.Extract.Swap.{gemini_extract_text-keeps, gemini_parse_receipt-keeps}
use kaufbot.Gemini.Service.{
  gemini_ocr_extract_text, gemini_ocr_extract_text_with_model, gemini_ocr_parse_receipt, gemini_ocr,
}

-- Requests go to the client's own model.
abbrev pub NoFallback : {S : Type 0} → GeminiClient × S → Type 0
NoFallback w = w.0.fallback_until ≡ 0

module _ {d : Doubles} (cj : Cjson d) {S : Type 0} (env : GeminiEnv d S) where
  extract_text-NoFallback :
      (b : Bytes) (filename : Text)
      → Keeps (λ w. NoFallback w) (gemini_extract_text cj env b filename)
  extract_text-NoFallback b filename =
      gemini_extract_text-keeps cj env {Q = λ c. c.fallback_until ≡ 0} (λ c h. refl)
        (λ c body h. (store_usage_same cj body c).0 ∙ h) b filename

  -- Where the client is in no fallback period, as a new one is, none of the three calls turns it to
  -- the fallback model, also where that is enabled and the API answers with status 429: the HTTP
  -- client returns an error for that status, before it is looked at.
  pub gemini_ocr-NoFallback :
      ((b : Bytes) (filename : Text)
        → Keeps (λ w. NoFallback w) ((gemini_ocr cj env).extract_text b filename))
      × ((b : Bytes) (filename model : Text)
          → Keeps
              (λ w. NoFallback w)
              ((gemini_ocr cj env).extract_text_with_model b filename model))
      × ((text : Text) → Keeps (λ w. NoFallback w) ((gemini_ocr cj env).parse_receipt text))
  unfolding gemini_ocr_extract_text gemini_ocr_extract_text_with_model gemini_ocr_parse_receipt
      gemini_extract_text_with_model set_model
  gemini_ocr-NoFallback = (
    λ b filename w h. extract_text-NoFallback b filename w h,
    λ b filename model (c, s) h. extract_text-NoFallback b filename _ h,
    λ text w h.
        gemini_parse_receipt-keeps cj env {Q = λ c. c.fallback_until ≡ 0} (λ c h. refl)
          (λ c body h. (store_usage_same cj body c).0 ∙ h) text w h,
  )
