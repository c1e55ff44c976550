-- ===== src/Gemini/Defs.antt =====
-- The client of src/ocr/gemini.c and what stands beside it.
use kaufbot.Prelude.{ℕ, Bool, Option, none, some, ℤ, pos, ltb_ℤ, if◌then◌else◌, Call}
use kaufbot.CText.{Text, codes, copy_to}
use kaufbot.Extern.{Doubles, CjsonPrint}
use kaufbot.Config.{gemini_max_model_len, gemini_url_buf_len}
use kaufbot.Http.Defs.{Curl}

-- `struct GeminiClient`; a `time_t` is a natural number.
pub record GeminiClient : Type 0 where
  pub api_key : Text
  pub model : Text
  pub fallback_model : Text
  pub api_base : Text
  pub http_timeout_secs : ℤ
  pub fallback_enabled : Bool
  pub fallback_until : ℕ
  pub last_prompt_tokens : ℤ
  pub last_completion_tokens : ℤ
  pub last_total_tokens : ℤ

-- libcurl, the clock, the midnight after a time (`localtime_r` and `mktime`), and the printer of
-- documents.
pub record GeminiEnv (d : Doubles) (S : Type 0) : Type 0 where
  pub curl : Curl d S
  pub time : Call S ℕ
  pub midnight_after : ℕ → ℕ
  pub print : CjsonPrint d

-- The client is part of the world.
abbrev pub beside : {A S : Type 0} → Call S A → Call (GeminiClient × S) A
beside m (c, s) = let (a, s') = m s in (a, (c, s'))

abbrev pub max_api_key_len : ℕ
max_api_key_len = 256

or_text : Option Text → Text → Text
or_text none t = t
or_text (some t) _ = t

-- `gemini_new`
unfoldable pub gemini_new :
    Option Text → Option Text → Option Text → Bool → Option Text → ℤ → Option GeminiClient
unfolding or_text
gemini_new (some api_key) (some model) fallback_model fallback_enabled api_base timeout_secs =
    some (record {
      api_key = copy_to max_api_key_len api_key;
      model = copy_to gemini_max_model_len model;
      fallback_model =
          copy_to gemini_max_model_len (or_text fallback_model (codes "gemma-3-27b-it"));
      api_base =
          copy_to gemini_url_buf_len
            (or_text api_base (codes "https://generativelanguage.googleapis.com/v1beta/models"));
      http_timeout_secs = if ltb_ℤ (pos 0) timeout_secs then timeout_secs else pos 600;
      fallback_enabled = fallback_enabled;
      fallback_until = 0;
      last_prompt_tokens = pos 0;
      last_completion_tokens = pos 0;
      last_total_tokens = pos 0;
    })
gemini_new _ _ fallback_model fallback_enabled api_base timeout_secs = none
