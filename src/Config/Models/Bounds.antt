-- ===== src/Config/Models/Bounds.antt =====
-- The bounds of the list of models that `config_load` (src/config.c) reads.
use kaufbot.Prelude.{ℕ, zero, suc, ◌≤◌, List, [], ◌∷◌, length, arith, All}
use kaufbot.CText.{Text, copy_to, length-copy_to}
use kaufbot.CText.Tokens.{tokens}
use kaufbot.Config.{max_gemini_models, gemini_max_model_len, gemini_models_buf}
use kaufbot.Config.Models.{trim, keep_model, parse_models, or_default, read_models}

-- A name of a model that fits its buffer.
abbrev pub FitsModel : Text → Type 0
FitsModel m = length m ≤ 127

FitsModel-copy_to : (m : Text) → FitsModel (copy_to gemini_max_model_len m)
FitsModel-copy_to m = length-copy_to gemini_max_model_len m

-- At most `n` models, each of which fits.
abbrev pub Listed : ℕ → List Text → Type 0
Listed n ms = (length ms ≤ n) × All FitsModel ms

parse_models-Listed : (room : ℕ) (toks : List Text) → Listed room (parse_models room toks)
unfolding parse_models keep_model
parse_models-Listed zero toks = (omega arith, tt)
parse_models-Listed (suc room) [] = (omega arith, tt)
parse_models-Listed (suc room) (tok ∷ toks) =
    let (few, fit) = parse_models-Listed room toks in
    elim (trim tok)
      as (λ t. Listed (suc room) (elim t [
        | [] ↦ parse_models (suc room) toks
        | c ∷ cs ↦ keep_model (c ∷ cs) (parse_models room toks)
      ])) [
        | [] ↦ parse_models-Listed (suc room) toks
        | c ∷ cs ↦ (omega arith, (FitsModel-copy_to (c ∷ cs), fit))
      ]

or_default-Listed : (model : Text) (ms : List Text) → Listed 8 ms → Listed 8 (or_default model ms)
or_default-Listed model [] l = (omega arith, (FitsModel-copy_to model, tt))
or_default-Listed model (m ∷ ms) l = l

pub read_models-Listed : (csv model : Text) → Listed 8 (read_models csv model)
unfolding read_models
read_models-Listed csv model =
    or_default-Listed model _
      (parse_models-Listed max_gemini_models (tokens b',' (copy_to gemini_models_buf csv)))

or_default_pos : (model : Text) (ms : List Text) → 1 ≤ length (or_default model ms)
or_default_pos model [] = omega arith
or_default_pos model (m ∷ ms) = omega arith

pub read_models_pos : (csv model : Text) → 1 ≤ length (read_models csv model)
unfolding read_models
read_models_pos csv model = or_default_pos model _
