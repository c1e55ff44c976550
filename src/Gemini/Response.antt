-- ===== src/Gemini/Response.antt =====
-- How src/ocr/gemini.c reads a response of the API.
pub mod Usage
use kaufbot.Prelude.{Option, none, some, List, [], ◌∷◌, ℤ, pos}
use kaufbot.CText.{Text, codes}
use kaufbot.Extern.{Doubles, Cjson, item, string_of, int_of, array_of}
use kaufbot.Gemini.Defs.{GeminiClient}

module _ {d : Doubles} (cj : Cjson d) where
  -- The first item of an array that is not empty.
  first_item : Option (List cj.Node) → Option cj.Node
  first_item none = none
  first_item (some []) = none
  first_item (some (x ∷ xs)) = some x

  text_without_error : cj.Node → Option cj.Node → Option Text
  unfolding first_item
  text_without_error json (some err) = none
  text_without_error json none =
      let cand0 = first_item (array_of cj (item cj (some json) (codes "candidates"))) in
      let part0 =
        first_item (array_of cj (item cj (item cj cand0 (codes "content")) (codes "parts"))) in
      string_of cj (item cj part0 (codes "text"))

  -- `gemini_check_error`, with the text of the node that it returns
  unfoldable pub gemini_check_error : cj.Node → Option Text
  unfolding text_without_error
  gemini_check_error json = text_without_error json (item cj (some json) (codes "error"))

  checked : Option cj.Node → Option Text
  unfolding gemini_check_error
  checked none = none
  checked (some json) = gemini_check_error json

  -- `gemini_parse_api_response`
  unfoldable pub gemini_parse_api_response : Option Text → Option Text
  unfolding checked
  gemini_parse_api_response none = none
  gemini_parse_api_response (some []) = none
  gemini_parse_api_response (some (c ∷ cs)) = checked (cj.parse (c ∷ cs))

  int_or_zero : Option ℤ → ℤ
  int_or_zero none = pos 0
  int_or_zero (some n) = n

  usage_of : Option cj.Node → GeminiClient → GeminiClient
  unfolding int_or_zero
  usage_of none c = c
  usage_of (some usage) c = record c {
    last_prompt_tokens = int_or_zero (int_of cj (item cj (some usage) (codes "promptTokenCount")));
    last_completion_tokens =
        int_or_zero (int_of cj (item cj (some usage) (codes "candidatesTokenCount")));
    last_total_tokens = int_or_zero (int_of cj (item cj (some usage) (codes "totalTokenCount")));
  }

  parsed : Option Text → Option cj.Node
  parsed none = none
  parsed (some body) = cj.parse body

  -- The tokens that `gemini_post_and_parse` stores.
  unfoldable pub store_usage : Option Text → GeminiClient → GeminiClient
  unfolding usage_of parsed
  store_usage body c = usage_of (item cj (parsed body) (codes "usageMetadata")) (record c {
    last_prompt_tokens = pos 0;
    last_completion_tokens = pos 0;
    last_total_tokens = pos 0;
  })
