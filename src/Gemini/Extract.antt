-- ===== src/Gemini/Extract.antt =====
-- The three requests of src/ocr/gemini.c.
pub mod Swap
use kaufbot.Prelude.{ℕ, Bool, Option, none, some, [], ◌∷◌, ◌++◌, Call, pure, ◌>>=◌, ◌>>◌}
use kaufbot.CText.{Text, codes, copy_to}
use kaufbot.Extern.{
  Doubles, Cjson, Json, json_number, json_string, json_array, json_object, JsonItems, no_items,
  add_item, JsonFields, no_fields, add_field,
}
use kaufbot.Config.{gemini_max_model_len}
use kaufbot.Backend.{Bytes}
use kaufbot.Storage.FileName.{mime_type}
use kaufbot.Utils.Base64.{base64_encode}
use kaufbot.Gemini.Defs.{GeminiClient, GeminiEnv}
use kaufbot.Gemini.Prompts.{ocr_prompt, parse_prompt}
use kaufbot.Gemini.Markdown.{strip_markdown_json}
use kaufbot.Gemini.Post.{gemini_post_and_parse}

module _ {d : Doubles} where
  text_part : Text → Json d
  text_part text = json_object (add_field (codes "text") (json_string text) no_fields)

  extra_part : Option Text → JsonItems d
  unfolding text_part
  extra_part none = no_items
  extra_part (some text) = add_item (text_part text) no_items

  append_items : JsonItems d → JsonItems d → JsonItems d
  append_items no_items rest = rest
  append_items (add_item x xs) rest = add_item x (append_items xs rest)

  -- The document of `gemini_build_body_and_post`; no parts is a NULL `parts` as well.
  unfoldable pub request_body : JsonItems d → Text → Option Text → Json d
  unfolding append_items extra_part text_part
  request_body parts prompt extra_text =
      let p = append_items parts (add_item (text_part prompt) (extra_part extra_text)) in
      let content = json_object (add_field (codes "parts") (json_array p) no_fields) in
      let gen_cfg =
        json_object (add_field (codes "temperature") (json_number d.zero_d) no_fields) in
      json_object (
        add_field (codes "contents") (json_array (add_item content no_items))
          (add_field (codes "generationConfig") gen_cfg no_fields))

  -- The part that carries a file.
  unfoldable pub file_part : Bytes → Text → JsonItems d
  file_part b filename =
      let inline_obj = json_object (
        add_field (codes "mime_type") (json_string (mime_type filename))
          (add_field (codes "data") (json_string (base64_encode b)) no_fields)) in
      add_item (json_object (add_field (codes "inline_data") inline_obj no_fields)) no_items

  module _ (cj : Cjson d) {S : Type 0} (env : GeminiEnv d S) where
    post_printed : Option Text → Call (GeminiClient × S) (Option Text)
    post_printed none = pure none
    post_printed (some body) = gemini_post_and_parse cj env body

    -- `gemini_build_body_and_post`
    unfoldable pub gemini_build_body_and_post :
        JsonItems d → Text → Option Text → Call (GeminiClient × S) (Option Text)
    unfolding request_body post_printed
    gemini_build_body_and_post parts prompt extra_text =
        post_printed (env.print (request_body parts prompt extra_text))

    -- `gemini_extract_text`
    unfoldable pub gemini_extract_text : Bytes → Text → Call (GeminiClient × S) (Option Text)
    unfolding gemini_build_body_and_post file_part
    gemini_extract_text b filename =
        gemini_build_body_and_post (file_part b filename) ocr_prompt none

    -- `snprintf(client->model, GEMINI_MAX_MODEL_LEN, "%s", model)`
    unfoldable pub set_model : Text → Call (GeminiClient × S) (Unit {0})
    set_model model (c, s) = (tt, (record c { model = copy_to gemini_max_model_len model }, s))

    -- `gemini_extract_text_with_model`, with the model swapped for the request
    unfoldable pub gemini_extract_text_with_model :
        Bytes → Text → Text → Call (GeminiClient × S) (Option Text)
    unfolding gemini_extract_text set_model
    gemini_extract_text_with_model b filename model (c, s) =
        let saved = copy_to gemini_max_model_len c.model in
        (do set_model model; result ← gemini_extract_text b filename; set_model saved; pure result)
          (c, s)

    stripped : Option Text → Option Text
    stripped none = none
    stripped (some raw) = some (strip_markdown_json raw)

    -- `gemini_parse_receipt`
    unfoldable pub gemini_parse_receipt : Text → Call (GeminiClient × S) (Option Text)
    unfolding gemini_build_body_and_post stripped
    gemini_parse_receipt ocr_text = do
      raw ← gemini_build_body_and_post no_items parse_prompt (some ocr_text)
      pure (stripped raw)
