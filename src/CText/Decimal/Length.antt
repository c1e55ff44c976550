-- ===== src/CText/Decimal/Length.antt =====
-- How long the decimal text of a number is.
use kaufbot.Prelude.{
  ℕ, zero, suc, ◌+◌, ◌^◌, ◌/◌, ◌%◌, ◌≤◌, ◌<◌, ◌≡◌, [], ◌∷◌, length, arith, ltb, Bool-cases, inl,
  inr, true, ℤ, pos, negsuc,
}
use kaufbot.CText.{Text}
use kaufbot.CText.Decimal.{digits_onto, show_ℕ, show_ℤ}
use kaufbot.CText.Decimal.RoundTrip.{InInt64}

length-digits_onto :
    (fuel k n : ℕ) (tail : Text)
    → n < 10 ^ suc k
    → length (digits_onto fuel n tail) ≤ suc k + length tail
unfolding digits_onto
length-digits_onto zero k n tail small = omega arith
length-digits_onto (suc fuel) zero n tail small =
    let digit : ltb n 10 ≡ true = ground arith in rw digit (omega arith)
length-digits_onto (suc fuel) (suc k) n tail small =
    let shorter : n / 10 < 10 ^ suc k = omega arith in
    let ih = length-digits_onto fuel k (n / 10) ((b'0' + n % 10) ∷ tail) shorter in
    elim (Bool-cases (ltb n 10)) [
      | inl digit ↦ rw digit (omega arith)
      | inr more ↦ rw more (omega arith)
    ]

-- An `int64_t` takes at most twenty characters.
pub length-show_ℤ : (z : ℤ) → InInt64 z → length (show_ℤ z) ≤ 20
unfolding show_ℤ show_ℕ
length-show_ℤ (pos n) h = omega (arith, length-digits_onto (suc n) 18 n [] (omega arith))
length-show_ℤ (negsuc n) h =
    omega (arith, length-digits_onto (suc (suc n)) 18 (suc n) [] (omega arith))
