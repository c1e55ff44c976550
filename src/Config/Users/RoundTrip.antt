-- ===== src/Config/Users/RoundTrip.antt =====
-- `parse_user_ids` (src/config.c) reads what a list of ids is written as.
use mathlib.Core.List.{append-nil}
use kaufbot.Prelude.{
  ℕ, zero, suc, ◌+◌, ◌*◌, ◌%◌, ◌/◌, ◌≤◌, ◌<◌, ◌≡◌, refl, ap, sym, ◌∙◌, false, some, List, [], ◌∷◌,
  ◌++◌, length, length-append, take-eq_of_le, All, arith, ltb, ◌==◌, Bool-cases, inl, inr, ℤ, pos,
  negsuc,
}
use kaufbot.CText.{Text, skip_while, skip_spaces, copy_to}
use kaufbot.CText.Search.{Without}
use kaufbot.CText.Tokens.{tokens, tokens-append, tokens-Without}
use kaufbot.CText.Decimal.{digits_onto, show_ℕ, show_ℤ, strtoll, starts_with_digit}
use kaufbot.CText.Decimal.Length.{length-show_ℤ}
use kaufbot.CText.Decimal.RoundTrip.{InInt64, strtoll-show_ℤ}
use kaufbot.Config.Users.{add_id, parse_ids, parse_user_ids}

-- The characters of a number are behind the comma and the space.
abbrev IsNumeric : Text → Type 0
IsNumeric t = All (λ c. 45 ≤ c) t

IsNumeric-digits_onto :
    (fuel n : ℕ) (tail : Text) → IsNumeric tail → IsNumeric (digits_onto fuel n tail)
unfolding digits_onto
IsNumeric-digits_onto zero n tail h = h
IsNumeric-digits_onto (suc fuel) n tail h =
    let ih = IsNumeric-digits_onto fuel (n / 10) ((b'0' + n % 10) ∷ tail) (omega arith, h) in
    elim (Bool-cases (ltb n 10)) [ inl digit ↦ rw digit (omega arith, h) | inr more ↦ rw more ih ]

IsNumeric-show_ℤ : (z : ℤ) → IsNumeric (show_ℤ z)
unfolding show_ℤ show_ℕ
IsNumeric-show_ℤ (pos n) = IsNumeric-digits_onto (suc n) n [] tt
IsNumeric-show_ℤ (negsuc n) = (omega arith, IsNumeric-digits_onto (suc (suc n)) (suc n) [] tt)

length-digits_onto_le : (fuel n : ℕ) (tail : Text) → length tail ≤ length (digits_onto fuel n tail)
unfolding digits_onto
length-digits_onto_le zero n tail = omega arith
length-digits_onto_le (suc fuel) n tail =
    let ih = length-digits_onto_le fuel (n / 10) ((b'0' + n % 10) ∷ tail) in
    elim (Bool-cases (ltb n 10)) [
      | inl digit ↦ rw digit (omega arith)
      | inr more ↦ rw more (omega arith)
    ]

length-digits_onto_lt :
    (fuel n : ℕ) (tail : Text) → length tail < length (digits_onto (suc fuel) n tail)
unfolding digits_onto
length-digits_onto_lt fuel n tail =
    let more = length-digits_onto_le fuel (n / 10) ((b'0' + n % 10) ∷ tail) in
    elim (Bool-cases (ltb n 10)) [
      | inl digit ↦ rw digit (omega arith)
      | inr two ↦ rw two (omega arith)
    ]

length-show_ℤ_pos : (z : ℤ) → 1 ≤ length (show_ℤ z)
unfolding show_ℤ show_ℕ
length-show_ℤ_pos (pos n) = omega (arith, length-digits_onto_lt n n [])
length-show_ℤ_pos (negsuc n) = omega arith

Without-IsNumeric : (t : Text) → IsNumeric t → Without b',' t
Without-IsNumeric [] h = tt
Without-IsNumeric (c ∷ cs) h = (ground (arith, h.0), Without-IsNumeric cs h.1)

skip_spaces-IsNumeric : (t : Text) → IsNumeric t → skip_spaces t ≡ t
unfolding skip_spaces skip_while
skip_spaces-IsNumeric [] h = refl
skip_spaces-IsNumeric (c ∷ cs) h =
    let e : (c == b' ') ≡ false = ground (arith, h.0) in ground (arith, e)

-- The ids with commas between them.
abbrev pub comma_separated : List ℤ → Text
comma_separated [] = []
comma_separated (id ∷ []) = show_ℤ id
comma_separated (id ∷ next ∷ rest) = show_ℤ id ++ b',' ∷ comma_separated (next ∷ rest)

length-comma_separated :
    (ids : List ℤ) → All InInt64 ids → length (comma_separated ids) ≤ 21 * length ids
length-comma_separated [] h = omega arith
length-comma_separated (id ∷ []) h = omega (arith, length-show_ℤ id h.0)
length-comma_separated (id ∷ next ∷ rest) h = omega (
  arith,
  length-show_ℤ id h.0,
  length-comma_separated (next ∷ rest) h.1,
  length-append (show_ℤ id) (b',' ∷ comma_separated (next ∷ rest)),
)

tokens_piece :
    (t rest : Text)
    → 1 ≤ length t
    → IsNumeric t
    → tokens b',' (t ++ b',' ∷ rest) ≡ t ∷ tokens b',' rest
tokens_piece [] rest some_ h = absurd (omega arith)
tokens_piece (c ∷ cs) rest some_ h = tokens-append b',' c cs rest (Without-IsNumeric (c ∷ cs) h)

tokens_last : (t : Text) → 1 ≤ length t → IsNumeric t → tokens b',' t ≡ t ∷ []
tokens_last [] some_ h = absurd (omega arith)
tokens_last (c ∷ cs) some_ h = tokens-Without b',' c cs (Without-IsNumeric (c ∷ cs) h)

strtoll-show_ℤ_alone : (id : ℤ) → InInt64 id → strtoll (skip_spaces (show_ℤ id)) ≡ some (id, [])
unfolding starts_with_digit
strtoll-show_ℤ_alone id h =
    ap strtoll
      (skip_spaces-IsNumeric (show_ℤ id) (IsNumeric-show_ℤ id) ∙ sym (append-nil (show_ℤ id)))
    ∙ strtoll-show_ℤ id [] h refl

parse_ids_nil : (room : ℕ) → parse_ids room [] ≡ some []
unfolding parse_ids
parse_ids_nil zero = refl
parse_ids_nil (suc room) = refl

parse_ids-comma_separated :
    (room : ℕ) (id : ℤ) (rest : List ℤ)
    → length (id ∷ rest) ≤ room
    → All InInt64 (id ∷ rest)
    → parse_ids room (tokens b',' (comma_separated (id ∷ rest))) ≡ some (id ∷ rest)
unfolding parse_ids add_id
parse_ids-comma_separated zero id rest few h = absurd (omega arith)
parse_ids-comma_separated (suc room) id [] few h =
    rw
      (
        tokens_last (show_ℤ id) (length-show_ℤ_pos id) (IsNumeric-show_ℤ id),
        parse_ids,
        strtoll-show_ℤ_alone id h.0,
      )
      (ap (add_id (some (id, []))) (parse_ids_nil room))
parse_ids-comma_separated (suc room) id (next ∷ rest) few h =
    rw
      (
        tokens_piece (show_ℤ id) (comma_separated (next ∷ rest)) (length-show_ℤ_pos id)
            (IsNumeric-show_ℤ id),
        parse_ids,
        strtoll-show_ℤ_alone id h.0,
        parse_ids-comma_separated room next rest (omega arith) h.1,
      )
      refl

-- A list of one to 32 ids of 64 bits, written with commas between them, is read back.
pub parse_user_ids-comma_separated :
    (id : ℤ) (rest : List ℤ)
    → length rest < 32
    → All InInt64 (id ∷ rest)
    → parse_user_ids (comma_separated (id ∷ rest)) ≡ some (id ∷ rest)
unfolding parse_user_ids copy_to
parse_user_ids-comma_separated id rest few h =
    let whole =
      take-eq_of_le 1023 (comma_separated (id ∷ rest))
        (omega (arith, length-comma_separated (id ∷ rest) h)) in
    rw whole (parse_ids-comma_separated 32 id rest (omega arith) h)
