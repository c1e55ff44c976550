-- ===== src/Reply/Writer/Bounds.antt =====
-- When the pattern `pos += snprintf(buf + pos, len - pos, …)` stays in its buffer.
use mathlib.Core.List.{append-nil, append_assoc}
use kaufbot.Prelude.{
  ℕ, ◌+◌, ◌-◌, ◌≤◌, ◌<◌, ◌≡◌, refl, ap, sym, ◌∙◌, Bool, true, false, List, [], ◌∷◌, ◌++◌, take,
  length, arith, ltb, ◌==◌, length-append, take-eq_of_le, Bool-cases, inl, inr,
}
use kaufbot.CText.{Text}
use kaufbot.Reply.Writer.{Buffer, append, append_all}

-- The texts of the calls, in order.
abbrev pub joined : List Text → Text
joined [] = []
joined (s ∷ rest) = s ++ joined rest

-- Nothing was cut, and the position is the end of the text.
pub record IsWhole (size : ℕ) (b : Buffer) : Type 0 where
  pub at_end : b.pos ≡ length b.text
  pub inside : b.pos < size
  pub unwrapped : b.wrapped ≡ false

pub append-IsWhole :
    (size : ℕ) (b : Buffer) (s : Text)
    → IsWhole size b
    → b.pos + length s < size
    → IsWhole size (append size b s) × ((append size b s).text ≡ b.text ++ s)
unfolding append
append-IsWhole size b s v fits =
    let kept : take (size - b.pos - 1) s ≡ s = take-eq_of_le (size - b.pos - 1) s (omega arith) in
    elim (Bool-cases (ltb b.pos size)) [
      | inr past ↦ absurd (ground arith)
      | inl room ↦
          rw (room, kept)
            (
              record {
                at_end = omega (arith, length-append b.text s, v.at_end);
                inside = fits;
                unwrapped = v.unwrapped;
              },
              refl,
            )
    ]

-- The position counts what was asked for, written or not.
pub pos-append : (size : ℕ) (b : Buffer) (s : Text) → (append size b s).pos ≡ b.pos + length s
unfolding append
pos-append size b s = ground arith

-- Calls whose texts fit write them one after the other.
pub append_all-IsWhole :
    (size : ℕ) (b : Buffer) (segments : List Text)
    → IsWhole size b
    → b.pos + length (joined segments) < size
    → IsWhole size (append_all size b segments)
      × ((append_all size b segments).text ≡ b.text ++ joined segments)
unfolding append_all
append_all-IsWhole size b [] v fits = (v, sym (append-nil b.text))
append_all-IsWhole size b (s ∷ rest) v fits =
    let total = length-append s (joined rest) in
    let (v', e) = append-IsWhole size b s v (omega (arith, length-append s (joined rest))) in
    let (v'', e') =
      append_all-IsWhole size (append size b s) rest v'
        (omega (arith, length-append s (joined rest), pos-append size b s)) in
    (v'', e' ∙ ap (λ t. t ++ joined rest) e ∙ append_assoc b.text s (joined rest))

-- A call whose position is not past the end writes nothing behind the buffer.
pub append_unwrapped :
    (size : ℕ) (b : Buffer) (s : Text)
    → b.pos ≤ size
    → b.wrapped ≡ false
    → (append size b s).wrapped ≡ false
unfolding append
append_unwrapped size b s inside h = elim (Bool-cases (ltb b.pos size)) [
  | inl room ↦ rw room h
  | inr full ↦ let at_end : (b.pos == size) ≡ true = ground arith in rw (full, at_end) h
]

append_all_le :
    (size : ℕ) (b : Buffer) (segments : List Text) → b.pos ≤ (append_all size b segments).pos
unfolding append_all
append_all_le size b [] = omega arith
append_all_le size b (s ∷ rest) =
    omega (arith, append_all_le size (append size b s) rest, pos-append size b s)

-- Calls whose last position is not past the end write nothing behind the buffer.
pub append_all_unwrapped :
    (size : ℕ) (b : Buffer) (segments : List Text)
    → b.wrapped ≡ false
    → (append_all size b segments).pos ≤ size
    → (append_all size b segments).wrapped ≡ false
unfolding append_all
append_all_unwrapped size b [] h inside = h
append_all_unwrapped size b (s ∷ rest) h inside =
    let before : b.pos ≤ size =
      omega (arith, append_all_le size (append size b s) rest, pos-append size b s, inside) in
    append_all_unwrapped size (append size b s) rest (append_unwrapped size b s before h) inside

-- A call past the end is never undone.
pub append_all-wrapped :
    (size : ℕ) (b : Buffer) (segments : List Text)
    → b.wrapped ≡ true
    → (append_all size b segments).wrapped ≡ true
unfolding append_all append
append_all-wrapped size b [] h = h
append_all-wrapped size b (s ∷ rest) h =
    append_all-wrapped size (append size b s) rest (unfold append in ground arith)

abbrev pub is_nil : List Text → Bool
is_nil [] = true
is_nil (s ∷ rest) = false

-- With the position past the end, any further call writes behind the buffer.
pub append_all_past :
    (size : ℕ) (b : Buffer) (segments : List Text)
    → is_nil segments ≡ false
    → size < b.pos
    → (append_all size b segments).wrapped ≡ true
unfolding append_all
append_all_past size b [] h past = cc
append_all_past size b (s ∷ rest) h past =
    append_all-wrapped size (append size b s) rest (unfold append in ground arith)
