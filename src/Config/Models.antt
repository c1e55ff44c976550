-- ===== src/Config/Models.antt =====
-- The list of models in `config_load`, src/config.c.
pub mod Bounds
use mathlib.Core.List.{reverse}
use kaufbot.Prelude.{ℕ, zero, suc, Bool, true, false, List, [], ◌∷◌, ◌==◌, ◌||◌, ◌≡◌, refl}
use kaufbot.CText.{Text, codes, copy_to, skip_while}
use kaufbot.CText.Tokens.{tokens}
use kaufbot.Config.{max_gemini_models, gemini_max_model_len, gemini_models_buf}

unfoldable pub is_blank : ℕ → Bool
is_blank c = c == b' ' || c == b'\t'

-- The two trimming loops.
unfoldable pub trim : Text → Text
unfolding skip_while is_blank
trim text = reverse (skip_while is_blank (reverse (skip_while is_blank text)))

keep_model : Text → List Text → List Text
keep_model [] rest = rest
keep_model (c ∷ cs) rest = copy_to gemini_max_model_len (c ∷ cs) ∷ rest

-- The loop over the tokens, with the places left in `gemini_models`; a blank token takes none.
parse_models : ℕ → List Text → List Text
unfolding trim keep_model
parse_models zero toks = []
parse_models (suc room) [] = []
parse_models (suc room) (tok ∷ toks) = elim (trim tok) [
  | [] ↦ parse_models (suc room) toks
  | c ∷ cs ↦ keep_model (c ∷ cs) (parse_models room toks)
]

abbrev or_default : Text → List Text → List Text
or_default model [] = copy_to gemini_max_model_len model ∷ []
or_default model (m ∷ ms) = m ∷ ms

-- The models of the list, or the default model alone if it names none.
unfoldable pub read_models : Text → Text → List Text
unfolding parse_models
read_models models_csv default_model =
    or_default default_model
      (parse_models max_gemini_models (tokens b',' (copy_to gemini_models_buf models_csv)))
