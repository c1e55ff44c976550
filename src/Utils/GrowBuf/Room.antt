-- ===== src/Utils/GrowBuf/Room.antt =====
-- The buffer of `growbuf_write_cb` (src/utils.c) has room for what it holds and its NUL.
use native.Mathlib.Nat.{mul_assoc}
use kaufbot.Prelude.{
  ℕ, zero, suc, ◌+◌, ◌-◌, ◌*◌, ◌%◌, ◌^◌, ◌≤◌, ◌<◌, ◌≡◌, refl, ap, sym, ◌∙◌, true, false, some, ◌++◌,
  length, length-append, ltb, ◌==◌, arith, Bool-cases, inl, inr,
}
use kaufbot.Backend.{Bytes}
use kaufbot.Utils.GrowBuf.{
  GrowBuf, double_until, first_cap, grow_and_copy, write_needed, growbuf_write,
}

-- Room for the bytes and the NUL, or nothing allocated and no bytes.
pub record HasRoom (buf : GrowBuf) : Type 0 where
  pub room : length buf.data_bytes ≤ buf.cap_bytes - 1
  pub small : buf.cap_bytes ≤ 2 ^ 63

double_until_enough :
    (fuel new_cap needed : ℕ)
    → 1 ≤ new_cap
    → new_cap ≤ 2 ^ 63
    → needed ≤ 2 ^ 62
    → needed ≤ new_cap * 2 ^ fuel
    → (size : ℕ) × (double_until fuel new_cap needed ≡ some size)
      × (needed ≤ size)
      × (size ≤ 2 ^ 63)
unfolding double_until
double_until_enough zero new_cap needed some_ fits small far =
    let e : ltb new_cap needed ≡ false = ground arith in
    (new_cap, rw e refl, omega arith, omega arith)
double_until_enough (suc fuel) new_cap needed some_ fits small far =
    elim (Bool-cases (ltb new_cap needed)) [
      | inr enough ↦ (new_cap, rw enough refl, ground arith, omega arith)
      | inl short ↦
          let lt : new_cap < needed = ground arith in
          let exact : new_cap * 2 % 2 ^ 64 ≡ new_cap * 2 = omega arith in
          let power : 2 ^ suc fuel ≡ 2 * 2 ^ fuel = omega arith in
          let product : new_cap * 2 ^ suc fuel ≡ new_cap * 2 * 2 ^ fuel =
            ap (λ x. new_cap * x) power ∙ sym (mul_assoc new_cap 2 (2 ^ fuel)) in
          let again : needed ≤ new_cap * 2 * 2 ^ fuel = omega arith in
          rw (short, exact)
            (double_until_enough fuel (new_cap * 2) needed (omega arith) (omega arith) small again)
    ]

first_cap_bounds : (size : ℕ) → size ≤ 2 ^ 62 → (1 ≤ first_cap size) × (first_cap size ≤ 2 ^ 63)
unfolding first_cap
first_cap_bounds size h = elim (Bool-cases (size == 0)) [
  | inl e ↦ rw e (omega arith, omega arith)
  | inr e ↦
      let exact : size * 2 % 2 ^ 64 ≡ size * 2 = omega arith in
      rw (e, exact) (ground arith, ground arith)
]

-- On a buffer with room, for as long as all the bytes are at most 2 ^ 62 with the NUL, a call whose
-- allocation succeeds ends within 64 rounds of its loop. It returns the number of the new bytes,
-- appends them, and leaves room for them and the NUL.
pub growbuf_write_appends :
    (incoming : Bytes) (buf : GrowBuf)
    → HasRoom buf
    → length buf.data_bytes + length incoming + 1 ≤ 2 ^ 62
    → (buf' : GrowBuf) × (growbuf_write 64 true incoming buf ≡ some (length incoming, buf'))
      × (buf'.data_bytes ≡ buf.data_bytes ++ incoming)
      × (length buf'.data_bytes < buf'.cap_bytes)
      × HasRoom buf'
unfolding growbuf_write write_needed grow_and_copy
growbuf_write_appends incoming buf h small =
    let needed = length buf.data_bytes + length incoming + 1 in
    let exact : needed % 2 ^ 64 ≡ needed = omega arith in
    let len = length-append buf.data_bytes incoming in
    elim (Bool-cases (ltb buf.cap_bytes needed)) [
      | inr enough ↦
          let le : needed ≤ buf.cap_bytes = ground arith in
          (
            record buf { data_bytes = buf.data_bytes ++ incoming },
            ap (λ n. write_needed 64 n true incoming buf) exact ∙ rw enough refl,
            refl,
            omega arith,
            record { room = omega arith; small = h.small },
          )
      | inl short ↦
          let lt : buf.cap_bytes < needed = ground arith in
          let (some_, fits) = first_cap_bounds buf.cap_bytes (omega arith) in
          let (size, e, enough, top) =
            double_until_enough 64 (first_cap buf.cap_bytes) needed some_ fits small
              (omega arith) in
          (
            record { data_bytes = buf.data_bytes ++ incoming; cap_bytes = size },
            ap (λ n. write_needed 64 n true incoming buf) exact ∙ rw (short, e) refl,
            refl,
            omega arith,
            record { room = omega arith; small = top },
          )
    ]
