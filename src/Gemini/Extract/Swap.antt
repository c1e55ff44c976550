-- ===== src/Gemini/Extract/Swap.antt =====
-- What the requests of src/ocr/gemini.c leave of the client.
use kaufbot.Prelude.{
  ◌<◌, ◌≡◌, refl, ap, ◌∙◌, Option, none, some, length, arith, take, take-eq_of_le, Keeps,
}
use kaufbot.CText.{Text, copy_to}
use kaufbot.Extern.{Doubles, Cjson, JsonItems, no_items}
use kaufbot.Backend.{Bytes}
use kaufbot.Config.{gemini_max_model_len}
use kaufbot.Gemini.Prompts.{ocr_prompt, parse_prompt}
use kaufbot.Gemini.Defs.{GeminiClient, GeminiEnv}
use kaufbot.Gemini.Response.{store_usage}
use kaufbot.Gemini.Response.Usage.{store_usage_same}
use kaufbot.Gemini.Post.Fallback.{gemini_post_and_parse-keeps}
use kaufbot.Gemini.Extract.{
  post_printed, request_body, file_part, gemini_build_body_and_post, gemini_extract_text, set_model,
  gemini_extract_text_with_model, gemini_parse_receipt,
}

module _ {d : Doubles} (cj : Cjson d) {S : Type 0} (env : GeminiEnv d S) where
  module _ {Q : GeminiClient → Type 0}
      (reverted : (c : GeminiClient) → Q c → Q (record c { fallback_until = 0 }))
      (counted : (c : GeminiClient) (body : Option Text) → Q c → Q (store_usage cj body c)) where
    post_printed-keeps : (body : Option Text) → Keeps (λ w. Q w.0) (post_printed cj env body)
    unfolding post_printed
    post_printed-keeps none w h = h
    post_printed-keeps (some body) w h =
        gemini_post_and_parse-keeps cj env reverted counted body w h

    gemini_build_body_and_post-keeps :
        (parts : JsonItems d) (prompt : Text) (extra : Option Text)
        → Keeps (λ w. Q w.0) (gemini_build_body_and_post cj env parts prompt extra)
    unfolding gemini_build_body_and_post
    gemini_build_body_and_post-keeps parts prompt extra =
        post_printed-keeps (env.print (request_body parts prompt extra))

    pub gemini_extract_text-keeps :
        (b : Bytes) (filename : Text) → Keeps (λ w. Q w.0) (gemini_extract_text cj env b filename)
    unfolding gemini_extract_text
    gemini_extract_text-keeps b filename =
        gemini_build_body_and_post-keeps (file_part b filename) ocr_prompt none

    pub gemini_parse_receipt-keeps :
        (text : Text) → Keeps (λ w. Q w.0) (gemini_parse_receipt cj env text)
    unfolding gemini_parse_receipt
    gemini_parse_receipt-keeps text w h =
        gemini_build_body_and_post-keeps no_items parse_prompt (some text) w h

  abbrev HasModel : Text → GeminiClient → Type 0
  HasModel m c = c.model ≡ m

  gemini_extract_text_model :
      (b : Bytes) (filename m : Text)
      → Keeps (λ w. HasModel m w.0) (gemini_extract_text cj env b filename)
  gemini_extract_text_model b filename m =
      gemini_extract_text-keeps (λ c h. h) (λ c body h. (store_usage_same cj body c).1 ∙ h) b
        filename

  -- No call of the API but the one with a model touches the model, and that one puts the old model
  -- back, whatever the request returns.
  pub calls_model :
      (c : GeminiClient) (s : S)
      → length c.model < gemini_max_model_len
      → ((b : Bytes) (filename : Text)
          → (gemini_extract_text cj env b filename (c, s)).1.0.model ≡ c.model)
        × ((b : Bytes) (filename model : Text)
            → (gemini_extract_text_with_model cj env b filename model (c, s)).1.0.model ≡ c.model)
        × ((text : Text) → (gemini_parse_receipt cj env text (c, s)).1.0.model ≡ c.model)
  unfolding gemini_extract_text_with_model set_model copy_to
  calls_model c s short = (
    λ b filename. gemini_extract_text_model b filename c.model (c, s) refl,
    λ b filename model. let e = take-eq_of_le 127 c.model (omega arith) in ap (take 127) e ∙ e,
    λ text.
        gemini_parse_receipt-keeps {Q = HasModel c.model} (λ c h. h)
          (λ c body h. (store_usage_same cj body c).1 ∙ h) text (c, s) refl,
  )
