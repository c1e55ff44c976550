-- ===== src/CText/Search.antt =====
-- `strchr`, `strrchr` and `strstr`: positions in a C string.
use kaufbot.Prelude.{
  ℕ, ◌≡◌, refl, ap, true, false, Option, none, some, [], ◌∷◌, ◌++◌, arith, ◌==◌, if◌then◌else◌,
}
use kaufbot.CText.{Text, has_prefix}

-- `strchr(text, c)`: the bytes before the first `c`, and the text from it on.
unfoldable pub strchr : ℕ → Text → Option (Text × Text)
strchr c [] = none
strchr c (x ∷ xs) =
    if x == c
    then some ([], x ∷ xs)
    else elim (strchr c xs) [ none ↦ none | some (before, at) ↦ some (x ∷ before, at) ]

-- What a byte `x` in front of `xs` makes of the last occurrence in `xs`.
strrchr_step : ℕ → ℕ → Text → Option (Text × Text) → Option (Text × Text)
strrchr_step c x xs none = if x == c then some ([], x ∷ xs) else none
strrchr_step c x xs (some (before, at)) = some (x ∷ before, at)

-- `strrchr(text, c)`: the bytes before the last `c`, and the text from it on.
unfoldable pub strrchr : ℕ → Text → Option (Text × Text)
unfolding strrchr_step
strrchr c [] = none
strrchr c (x ∷ xs) = strrchr_step c x xs (strrchr c xs)

-- `strstr(text, needle)`: the bytes before the first occurrence, and the text from it on.
unfoldable pub strstr : Text → Text → Option (Text × Text)
strstr needle [] = if has_prefix [] needle then some ([], []) else none
strstr needle (x ∷ xs) =
    if has_prefix (x ∷ xs) needle
    then some ([], x ∷ xs)
    else elim (strstr needle xs) [ none ↦ none | some (before, at) ↦ some (x ∷ before, at) ]

-- `c` stands nowhere in `text`.
abbrev pub Without : ℕ → Text → Type 0
Without c [] = Unit
Without c (x ∷ xs) = ((x == c) ≡ false) × Without c xs

pub strrchr-eq-none : (c : ℕ) (text : Text) → Without c text → strrchr c text ≡ none
unfolding strrchr
strrchr-eq-none c [] h = refl
strrchr-eq-none c (x ∷ xs) h = ground (arith, strrchr-eq-none c xs h.1)

-- A split of `text` at its last `c`, or no `c` at all.
abbrev pub LastAt : ℕ → Text → Option (Text × Text) → Type 0
LastAt c text none = Without c text
LastAt c text (some (before, at)) =
    (rest : Text) × (at ≡ c ∷ rest) × (text ≡ before ++ at) × Without c rest

LastAt-step :
    (c x : ℕ) (xs : Text) (o : Option (Text × Text))
    → LastAt c xs o
    → LastAt c (x ∷ xs) (strrchr_step c x xs o)
unfolding strrchr_step
LastAt-step c x xs (some (before, at)) (rest, e, split, h) = (rest, e, ap (λ r. x ∷ r) split, h)
LastAt-step c x xs none h =
    elim (x == c)
        as (λ b. (x == c) ≡ b → LastAt c (x ∷ xs) (if b then some ([], x ∷ xs) else none)) [
          | true ↦ λ e. (xs, ground arith, refl, h)
          | false ↦ λ e. (e, h)
        ]
      refl

pub strrchr-LastAt : (c : ℕ) (text : Text) → LastAt c text (strrchr c text)
unfolding strrchr
strrchr-LastAt c [] = tt
strrchr-LastAt c (x ∷ xs) = LastAt-step c x xs (strrchr c xs) (strrchr-LastAt c xs)

pub strrchr-append :
    (c : ℕ) (before rest : Text)
    → Without c rest
    → strrchr c (before ++ c ∷ rest) ≡ some (before, c ∷ rest)
unfolding strrchr
strrchr-append c [] rest h = ground (arith, strrchr-eq-none c rest h)
strrchr-append c (x ∷ xs) rest h = ground (arith, strrchr-append c xs rest h)

pub strchr-append :
    (c : ℕ) (before rest : Text)
    → Without c before
    → strchr c (before ++ c ∷ rest) ≡ some (before, c ∷ rest)
unfolding strchr
strchr-append c [] rest h = ground arith
strchr-append c (x ∷ xs) rest h = ground (arith, strchr-append c xs rest h.1)
