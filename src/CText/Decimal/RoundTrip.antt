-- ===== src/CText/Decimal/RoundTrip.antt =====
-- What `%lld` prints, `strtoll` reads back.
use kaufbot.Prelude.{
  ℕ, zero, suc, ◌+◌, ◌/◌, ◌%◌, ◌≤◌, ◌<◌, ◌≡◌, refl, ◌∙◌, true, false, some, [], ◌∷◌, ◌++◌, arith,
  ltb, ℤ, pos, negsuc, Bool-cases, inl, inr,
}
use kaufbot.CText.{Text, skip_while}
use kaufbot.CText.Decimal.{
  digits_onto, show_ℕ, show_ℤ, is_space, read_digits, int64_max, clamp_pos, clamp_neg, read_signed,
  read_after_sign, starts_with_digit, strtoll,
}

-- The text goes on with no digit.
abbrev pub EndsNumber : Text → Type 0
EndsNumber text = starts_with_digit text ≡ false

-- Reading digits in front of a text.
read_digits-stop : (acc : ℕ) (rest : Text) → EndsNumber rest → read_digits acc rest ≡ (acc, rest)
unfolding read_digits starts_with_digit
read_digits-stop acc [] h = refl
read_digits-stop acc (c ∷ cs) h = ground arith

-- Reading the digits of `n` in front of a text is reading the text onto `n`.
read_digits-digits_onto :
    (fuel n : ℕ) (tail : Text)
    → n < fuel
    → read_digits 0 (digits_onto fuel n tail) ≡ read_digits n tail
unfolding digits_onto read_digits
read_digits-digits_onto zero n tail lt = absurd (omega arith)
read_digits-digits_onto (suc fuel) n tail lt = elim (Bool-cases (ltb n 10)) [
  | inl small ↦ ground arith
  | inr large ↦
      rw large (
        read_digits-digits_onto fuel (n / 10) ((b'0' + n % 10) ∷ tail) (ground arith)
        ∙ ground arith)
]

starts_with_digit-digits_onto :
    (fuel n : ℕ) (tail : Text)
    → starts_with_digit tail ≡ true
    → starts_with_digit (digits_onto fuel n tail) ≡ true
unfolding digits_onto starts_with_digit
starts_with_digit-digits_onto zero n tail h = h
starts_with_digit-digits_onto (suc fuel) n tail h = elim (Bool-cases (ltb n 10)) [
  | inl small ↦ ground arith
  | inr large ↦
      rw large (starts_with_digit-digits_onto fuel (n / 10) ((b'0' + n % 10) ∷ tail) (ground arith))
]

digits_onto-append :
    (fuel n : ℕ) (tail rest : Text)
    → digits_onto fuel n tail ++ rest ≡ digits_onto fuel n (tail ++ rest)
unfolding digits_onto
digits_onto-append zero n tail rest = refl
digits_onto-append (suc fuel) n tail rest = elim (Bool-cases (ltb n 10)) [
  | inl small ↦ rw small
  | inr large ↦ rw large (digits_onto-append fuel (n / 10) ((b'0' + n % 10) ∷ tail) rest)
]

show_ℕ-starts_with_digit : (n : ℕ) (rest : Text) → starts_with_digit (show_ℕ n ++ rest) ≡ true
unfolding show_ℕ digits_onto starts_with_digit
show_ℕ-starts_with_digit n rest = elim (Bool-cases (ltb n 10)) [
  | inl small ↦ ground arith
  | inr large ↦ rw large (
      rw digits_onto-append
        (starts_with_digit-digits_onto n (n / 10) (((b'0' + n % 10) ∷ []) ++ rest) (ground arith)))
]

-- A printed number is read back, up to the text behind it.
read_digits-show_ℕ :
    (n : ℕ) (rest : Text) → EndsNumber rest → read_digits 0 (show_ℕ n ++ rest) ≡ (n, rest)
unfolding show_ℕ
read_digits-show_ℕ n rest h =
    rw digits_onto-append
      (read_digits-digits_onto (suc n) n rest (omega arith) ∙ read_digits-stop n rest h)

read_signed-show_ℕ :
    (sign : ℕ → ℤ) (n : ℕ) (rest : Text)
    → EndsNumber rest
    → read_signed sign (show_ℕ n ++ rest) ≡ some (sign n, rest)
unfolding read_signed
read_signed-show_ℕ sign n rest h =
    rw (show_ℕ-starts_with_digit n rest) (rw (read_digits-show_ℕ n rest h))

-- A text that begins with a digit is read without a sign, as it stands.
read_digit_first :
    (text : Text)
    → starts_with_digit text ≡ true
    → read_after_sign (skip_while is_space text) ≡ read_signed clamp_pos text
unfolding read_after_sign skip_while is_space starts_with_digit
read_digit_first [] h = cc
read_digit_first (c ∷ cs) h = ground arith

read_minus_first :
    (text : Text) → read_after_sign (skip_while is_space (b'-' ∷ text)) ≡ read_signed clamp_neg text
unfolding read_after_sign skip_while is_space
read_minus_first text = refl

-- The 64-bit integers.
abbrev pub InInt64 : ℤ → Type 0
InInt64 (pos n) = n ≤ int64_max
InInt64 (negsuc n) = n ≤ int64_max

-- Every `int64_t` that `%lld` prints is read back by `strtoll`, up to the text behind it, which
-- begins with no digit.
pub strtoll-show_ℤ :
    (z : ℤ) (rest : Text)
    → InInt64 z
    → EndsNumber rest
    → strtoll (show_ℤ z ++ rest) ≡ some (z, rest)
unfolding strtoll show_ℤ
strtoll-show_ℤ (pos n) rest fits h =
    read_digit_first (show_ℕ n ++ rest) (show_ℕ-starts_with_digit n rest)
    ∙ read_signed-show_ℕ clamp_pos n rest h
    ∙ unfold clamp_pos in ground arith
strtoll-show_ℤ (negsuc n) rest fits h =
    read_minus_first (show_ℕ (suc n) ++ rest)
    ∙ read_signed-show_ℕ clamp_neg (suc n) rest h
    ∙ unfold clamp_neg in ground arith
