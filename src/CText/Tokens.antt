-- ===== src/CText/Tokens.antt =====
-- `strtok_r(buf, ",", &save)`: the pieces between separators that are not empty.
use kaufbot.Prelude.{ℕ, List, [], ◌∷◌, ◌++◌, ◌==◌, if◌then◌else◌, ◌≡◌, refl, arith}
use kaufbot.CText.{Text}
use kaufbot.CText.Search.{Without}

-- A piece in front of the pieces, unless it is empty.
unfoldable pub push_token : Text → List Text → List Text
push_token [] rest = rest
push_token (c ∷ cs) rest = (c ∷ cs) ∷ rest

-- The piece that the text begins with, and the pieces behind it.
unfoldable pub split_at : ℕ → Text → Text × List Text
unfolding push_token
split_at sep [] = ([], [])
split_at sep (c ∷ cs) =
    let (piece, rest) = split_at sep cs in
    if c == sep then ([], push_token piece rest) else (c ∷ piece, rest)

unfoldable pub tokens : ℕ → Text → List Text
unfolding split_at
tokens sep text = let (piece, rest) = split_at sep text in push_token piece rest

split_at-append :
    (sep : ℕ) (piece rest : Text)
    → Without sep piece
    → split_at sep (piece ++ sep ∷ rest) ≡ (piece, tokens sep rest)
unfolding split_at tokens
split_at-append sep [] rest h = ground arith
split_at-append sep (c ∷ cs) rest h = ground (arith, split_at-append sep cs rest h.1)

split_at-Without : (sep : ℕ) (piece : Text) → Without sep piece → split_at sep piece ≡ (piece, [])
unfolding split_at
split_at-Without sep [] h = refl
split_at-Without sep (c ∷ cs) h = ground (arith, split_at-Without sep cs h.1)

-- A piece without the separator, with a separator behind it, is the first token.
pub tokens-append :
    (sep c : ℕ) (cs rest : Text)
    → Without sep (c ∷ cs)
    → tokens sep ((c ∷ cs) ++ sep ∷ rest) ≡ (c ∷ cs) ∷ tokens sep rest
unfolding tokens push_token
tokens-append sep c cs rest h = rw (split_at-append sep (c ∷ cs) rest h)

-- A piece without the separator is one token.
pub tokens-Without :
    (sep c : ℕ) (cs : Text) → Without sep (c ∷ cs) → tokens sep (c ∷ cs) ≡ (c ∷ cs) ∷ []
unfolding tokens push_token
tokens-Without sep c cs h = rw (split_at-Without sep (c ∷ cs) h)
