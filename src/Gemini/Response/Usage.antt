-- ===== src/Gemini/Response/Usage.antt =====
-- What the tokens of a response leave of the client, src/ocr/gemini.c.
use kaufbot.Prelude.{◌≡◌, refl, Option, none, some}
use kaufbot.CText.{Text}
use kaufbot.Extern.{Doubles, Cjson}
use kaufbot.Gemini.Defs.{GeminiClient}
use kaufbot.Gemini.Response.{usage_of, store_usage}

module _ {d : Doubles} (cj : Cjson d) where
  usage_of_same :
      (o : Option cj.Node) (c : GeminiClient)
      → ((usage_of cj o c).fallback_until ≡ c.fallback_until) × ((usage_of cj o c).model ≡ c.model)
  unfolding usage_of
  usage_of_same none c = (refl, refl)
  usage_of_same (some usage) c = (refl, refl)

  -- The period of the fallback and the model stay.
  pub store_usage_same :
      (body : Option Text) (c : GeminiClient)
      → ((store_usage cj body c).fallback_until ≡ c.fallback_until)
        × ((store_usage cj body c).model ≡ c.model)
  unfolding store_usage
  store_usage_same body c = usage_of_same _ _
