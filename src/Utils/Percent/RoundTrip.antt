-- ===== src/Utils/Percent/RoundTrip.antt =====
-- What `url_percent_encode` (src/utils.c) promises: RFC 3986 decoding gives the text back, and the
-- buffer of three bytes a character is enough.
use kaufbot.Prelude.{
  ℕ, ◌+◌, ◌-◌, ◌*◌, ◌/◌, ◌%◌, ◌≤◌, ◌<◌, ◌≡◌, refl, ap, true, false, [], ◌∷◌, length, arith, All,
  ltb, ◌==◌, if◌then◌else◌, Bool-cases, inl, inr,
}
use kaufbot.CText.{Text}
use kaufbot.Utils.Percent.{is_unreserved, upper_hex, percent_encode}

abbrev hex_value : ℕ → ℕ
hex_value c = if ltb c b'A' then c - b'0' else c - b'A' + 10

-- `%XY` stands for one byte, every other character for itself.
abbrev pub percent_decode : Text → Text
percent_decode [] = []
percent_decode (c ∷ []) = c ∷ []
percent_decode (c ∷ x ∷ []) = c ∷ percent_decode (x ∷ [])
percent_decode (c ∷ x ∷ y ∷ rest) =
    let coded = percent_decode rest in
    let plain = percent_decode (x ∷ y ∷ rest) in
    if c == b'%' then (16 * hex_value x + hex_value y) ∷ coded else c ∷ plain

percent_decode_plain :
    (c : ℕ) (rest : Text)
    → (c == b'%') ≡ false
    → percent_decode (c ∷ rest) ≡ c ∷ percent_decode rest
percent_decode_plain c [] h = refl
percent_decode_plain c (x ∷ []) h = refl
percent_decode_plain c (x ∷ y ∷ rest) h = rw h refl

hex_value-upper_hex : (n : ℕ) → n < 16 → hex_value (upper_hex n) ≡ n
unfolding upper_hex
hex_value-upper_hex n h = ground arith

unreserved_plain : (c : ℕ) → is_unreserved c ≡ true → (c == b'%') ≡ false
unfolding is_unreserved
unreserved_plain c h = ground arith

-- Decoding the encoded text of bytes, numbers below 256, gives them back.
pub percent_decode-percent_encode :
    (text : Text) → All (λ c. c < 256) text → percent_decode (percent_encode text) ≡ text
unfolding percent_encode
percent_decode-percent_encode [] h = refl
percent_decode-percent_encode (c ∷ cs) (byte, h) =
    let ih = percent_decode-percent_encode cs h in
    elim (Bool-cases (is_unreserved c)) [
      | inl plain ↦
          rw (plain, percent_decode_plain c (percent_encode cs) (unreserved_plain c plain), ih) refl
      | inr coded ↦
          rw
            (
              coded,
              hex_value-upper_hex (c / 16) (omega arith),
              hex_value-upper_hex (c % 16) (omega arith),
              ih,
            )
            (ap (λ x. x ∷ cs) (omega arith))
    ]

-- The encoded text fits the buffer of `3 * len + 1` bytes.
pub length-percent_encode : (text : Text) → length (percent_encode text) ≤ 3 * length text
unfolding percent_encode
length-percent_encode [] = omega arith
length-percent_encode (c ∷ cs) =
    let ih = length-percent_encode cs in
    elim (Bool-cases (is_unreserved c)) [
      | inl plain ↦ rw plain (omega arith)
      | inr coded ↦ rw coded (omega arith)
    ]
