-- ===== src/CText/Decimal.antt =====
-- `%d` and `%lld`, and `strtoll` in base 10.
pub mod Length
pub mod RoundTrip
use kaufbot.Prelude.{
  ℕ, zero, suc, ◌+◌, ◌-◌, ◌*◌, ◌/◌, ◌%◌, ◌^◌, ◌≡◌, refl, Bool, false, ◌&&◌, ◌||◌, Option, none,
  some, [], ◌∷◌, ltb, leb, ◌==◌, if◌then◌else◌, ℤ, pos, negsuc,
}
use kaufbot.CText.{Text, skip_while}

-- The digits of `n`, most significant first, in front of `tail`; one round of fuel a digit.
unfoldable pub digits_onto : ℕ → ℕ → Text → Text
digits_onto zero n tail = tail
digits_onto (suc fuel) n tail =
    let more = digits_onto fuel (n / 10) ((b'0' + n % 10) ∷ tail) in
    if ltb n 10 then (b'0' + n) ∷ tail else more

-- `%u`: a number below 10 ^ k has at most k digits, so `suc n` rounds are enough.
unfoldable pub show_ℕ : ℕ → Text
unfolding digits_onto
show_ℕ n = digits_onto (suc n) n []

-- `%d`, `%lld`
unfoldable pub show_ℤ : ℤ → Text
unfolding show_ℕ
show_ℤ (pos n) = show_ℕ n
show_ℤ (negsuc n) = b'-' ∷ show_ℕ (suc n)

-- `isspace` in the C locale
unfoldable pub is_space : ℕ → Bool
is_space c = c == b' ' || (leb 9 c && leb c 13)

unfoldable pub is_digit : ℕ → Bool
is_digit c = leb b'0' c && leb c b'9'

-- The digits at the head of a text, read onto `acc`, and the text behind them.
unfoldable pub read_digits : ℕ → Text → ℕ × Text
unfolding is_digit
read_digits acc [] = (acc, [])
read_digits acc (c ∷ cs) =
    let rest = read_digits (acc * 10 + (c - b'0')) cs in if is_digit c then rest else (acc, c ∷ cs)

-- LLONG_MAX; `strtoll` returns the nearest bound for a number out of range.
abbrev pub int64_max : ℕ
int64_max = 2 ^ 63 - 1

unfoldable pub clamp_pos : ℕ → ℤ
clamp_pos n = if ltb int64_max n then pos int64_max else pos n

unfoldable pub clamp_neg : ℕ → ℤ
clamp_neg zero = pos 0
clamp_neg (suc n) = if ltb int64_max n then negsuc int64_max else negsuc n

unfoldable pub starts_with_digit : Text → Bool
unfolding is_digit
starts_with_digit [] = false
starts_with_digit (c ∷ cs) = is_digit c

-- The number at the head of an unsigned text.
read_signed : (ℕ → ℤ) → Text → Option (ℤ × Text)
unfolding read_digits starts_with_digit
read_signed sign text =
    if starts_with_digit text
    then (let (n, rest) = read_digits 0 text in some (sign n, rest))
    else none

read_after_sign : Text → Option (ℤ × Text)
unfolding read_signed clamp_pos clamp_neg
read_after_sign [] = none
read_after_sign (c ∷ cs) =
    if c == b'-'
    then read_signed clamp_neg cs
    else if c == b'+'
    then read_signed clamp_pos cs
    else read_signed clamp_pos (c ∷ cs)

-- `strtoll(text, &end, 10)`: the number and the text at `end`, or `none` where no digit was read
-- (the number is then 0 and `end == text`).
unfoldable pub strtoll : Text → Option (ℤ × Text)
unfolding read_after_sign skip_while is_space
strtoll text = read_after_sign (skip_while is_space text)

abbrev number_or_zero : Option (ℤ × Text) → ℤ
number_or_zero none = pos 0
number_or_zero (some (id, end)) = id

-- `strtoll(data, NULL, 10)`
unfoldable pub leading_number : Text → ℤ
leading_number data_text = number_or_zero (strtoll data_text)

strtoll_test :
    (strtoll (47 ∷ []) ≡ none)
    × (strtoll (32 ∷ 45 ∷ 49 ∷ 50 ∷ 120 ∷ []) ≡ some (negsuc 11, 120 ∷ []))
unfolding strtoll
strtoll_test = (refl, refl)

show_ℤ_test : show_ℤ (negsuc 119) ≡ 45 ∷ 49 ∷ 50 ∷ 48 ∷ []
unfolding show_ℤ
show_ℤ_test = refl
