-- ===== src/Utils/Base64/RoundTrip.antt =====
-- What `base64_encode` (src/utils.c) promises: decoding gives the bytes back, and the buffer that it
-- allocates is filled exactly.
use kaufbot.Prelude.{
  ℕ, zero, suc, ◌+◌, ◌-◌, ◌*◌, ◌/◌, ◌%◌, ◌≤◌, ◌<◌, ◌≡◌, refl, ap, sym, ◌∙◌, Bool, true, false, ◌&&◌,
  [], ◌∷◌, length, get_or, set, length-set, arith, All, ◌==◌, if◌then◌else◌, Bool-cases, inl, inr,
  ltb, ltb→lt,
}
use kaufbot.CText.{Text}
use kaufbot.Backend.{Bytes}
use kaufbot.Utils.Base64.{b64_chars, b64_char, encode_group, encode_groups, pad_last, base64_encode}

-- The place of a character in a table.
abbrev index_in : Text → ℕ → ℕ
index_in [] c = 0
index_in (x ∷ xs) c = let later = index_in xs c in if x == c then 0 else suc later

abbrev sextet : ℕ → ℕ
sextet c = index_in b64_chars c

-- The decoder of RFC 4648, on padded text.
abbrev pub base64_decode : Text → Bytes
base64_decode (p ∷ q ∷ r ∷ s ∷ rest) =
    let more = base64_decode rest in
    let first = sextet p * 4 + sextet q / 16 in
    let second = sextet q % 16 * 16 + sextet r / 4 in
    let third = sextet r % 4 * 64 + sextet s in
    if r == b'='
    then first ∷ []
    else if s == b'='
    then first ∷ second ∷ []
    else first ∷ second ∷ third ∷ more
base64_decode _ = []

all_below : ℕ → (ℕ → Bool) → Bool
all_below zero p = true
all_below (suc n) p = p n && all_below n p

all_below_at : (n : ℕ) (p : ℕ → Bool) (i : ℕ) → all_below n p ≡ true → i < n → p i ≡ true
unfolding all_below
all_below_at zero p i h lt = absurd (omega arith)
all_below_at (suc n) p i h lt = elim (Bool-cases (ltb i n)) [
  | inl below ↦ all_below_at n p i (ground arith) (ltb→lt i n below)
  | inr last ↦
      let e : n ≡ i = ground arith in let now : p n ≡ true = ground arith in ap p (sym e) ∙ now
]

abbrev good : ℕ → Bool
good n =
    (sextet (get_or b64_chars n 0) == n) && (if get_or b64_chars n 0 == b'=' then false else true)

all_good : all_below 64 good ≡ true
unfolding all_below
all_good = refl

sextet-b64_char : (n : ℕ) → n < 64 → (sextet (b64_char n) ≡ n) × ((b64_char n == b'=') ≡ false)
unfolding b64_char
sextet-b64_char n h = let ok = all_below_at 64 good n all_good h in ground (arith, ok)

decode-encode_group :
    (a b c : ℕ) (more : Text)
    → a < 256
    → b < 256
    → c < 256
    → base64_decode (encode_group a b c more) ≡ a ∷ b ∷ c ∷ base64_decode more
unfolding encode_group
decode-encode_group a b c more ha hb hc =
    let t = a * 65536 + b * 256 + c in
    let p = sextet-b64_char (t / 262144 % 64) (omega arith) in
    let q = sextet-b64_char (t / 4096 % 64) (omega arith) in
    let r = sextet-b64_char (t / 64 % 64) (omega arith) in
    let s = sextet-b64_char (t % 64) (omega arith) in
    let first : t / 262144 % 64 * 4 + t / 4096 % 64 / 16 ≡ a = omega arith in
    let second : t / 4096 % 64 % 16 * 16 + t / 64 % 64 / 4 ≡ b = omega arith in
    let third : t / 64 % 64 % 4 * 64 + t % 64 ≡ c = omega arith in
    rw (r.1, s.1, p.0, q.0, r.0, s.0) (λ i. first i ∷ second i ∷ third i ∷ base64_decode more)

length-encode_groups : (src : Bytes) → length (encode_groups src) ≡ (length src + 2) / 3 * 4
unfolding encode_groups encode_group
length-encode_groups [] = refl
length-encode_groups (a ∷ []) = refl
length-encode_groups (a ∷ b ∷ []) = refl
length-encode_groups (a ∷ b ∷ c ∷ rest) = omega (arith, length-encode_groups rest)

length-pad_last : (n : ℕ) (out : Text) → length (pad_last n out) ≡ length out
unfolding pad_last
length-pad_last n out =
    let one = length-set out (length out - 1) b'=' in
    let two = length-set (set out (length out - 1) b'=') (length out - 2) b'=' in
    elim (Bool-cases (n % 3 == 1)) [
      | inl e ↦ rw e (two ∙ one)
      | inr e ↦ elim (Bool-cases (n % 3 == 2)) [
        | inl e' ↦ rw (e, e') one
        | inr e' ↦ rw (e, e') refl
      ]
    ]

-- The text fills the buffer of `(len + 2) / 3 * 4 + 1` bytes, of which one is the NUL.
pub length-base64_encode : (src : Bytes) → length (base64_encode src) ≡ (length src + 2) / 3 * 4
unfolding base64_encode
length-base64_encode src =
    length-pad_last (length src) (encode_groups src) ∙ length-encode_groups src

set_behind :
    (a b c k m : ℕ) (out : Text)
    → m ≤ k
    → set (encode_group a b c out) (suc (suc (suc (suc k))) - m) b'='
      ≡ encode_group a b c (set out (k - m) b'=')
unfolding encode_group
set_behind a b c k m out h =
    let at : suc (suc (suc (suc k))) - m ≡ suc (suc (suc (suc (k - m)))) = omega arith in
    ap (λ i. set (encode_group a b c out) i b'=') at

length-encode_group :
    (a b c : ℕ) (out : Text) → length (encode_group a b c out) ≡ suc (suc (suc (suc (length out))))
unfolding encode_group
length-encode_group a b c out = refl

pad_last_behind :
    (a b c n : ℕ) (out : Text)
    → 2 ≤ length out
    → pad_last (suc (suc (suc n))) (encode_group a b c out) ≡ encode_group a b c (pad_last n out)
unfolding pad_last
pad_last_behind a b c n out h =
    let j = suc (suc (suc (suc (length out)))) in
    let same : suc (suc (suc n)) % 3 ≡ n % 3 = omega arith in
    let last = set_behind a b c (length out) 1 out (omega arith) in
    let before = set_behind a b c (length out) 2 (set out (length out - 1) b'=') (omega arith) in
    elim (Bool-cases (n % 3 == 1)) [
      | inl e ↦ rw (same, e, length-encode_group a b c out, last) before
      | inr e ↦ elim (Bool-cases (n % 3 == 2)) [
        | inl e' ↦ rw (same, e, e', length-encode_group a b c out) last
        | inr e' ↦ rw (same, e, e') refl
      ]
    ]

base64_encode_step :
    (a b c : ℕ) (rest : Bytes)
    → base64_encode (a ∷ b ∷ c ∷ rest) ≡ encode_group a b c (base64_encode rest)
unfolding base64_encode encode_groups pad_last encode_group
base64_encode_step a b c [] = refl
base64_encode_step a b c (x ∷ rest) =
    pad_last_behind a b c (suc (length rest)) (encode_groups (x ∷ rest))
      (omega (arith, length-encode_groups (x ∷ rest)))

decode-encode_one : (a : ℕ) → a < 256 → base64_decode (base64_encode (a ∷ [])) ≡ a ∷ []
unfolding base64_encode encode_groups pad_last encode_group
decode-encode_one a h =
    let t = a * 65536 + 0 * 256 + 0 in
    let p = sextet-b64_char (t / 262144 % 64) (omega arith) in
    let q = sextet-b64_char (t / 4096 % 64) (omega arith) in
    let first : t / 262144 % 64 * 4 + t / 4096 % 64 / 16 ≡ a = omega arith in
    rw (p.0, q.0) (ap (λ x. x ∷ []) first)

decode-encode_two :
    (a b : ℕ) → a < 256 → b < 256 → base64_decode (base64_encode (a ∷ b ∷ [])) ≡ a ∷ b ∷ []
unfolding base64_encode encode_groups pad_last encode_group
decode-encode_two a b ha hb =
    let t = a * 65536 + b * 256 + 0 in
    let p = sextet-b64_char (t / 262144 % 64) (omega arith) in
    let q = sextet-b64_char (t / 4096 % 64) (omega arith) in
    let r = sextet-b64_char (t / 64 % 64) (omega arith) in
    let first : t / 262144 % 64 * 4 + t / 4096 % 64 / 16 ≡ a = omega arith in
    let second : t / 4096 % 64 % 16 * 16 + t / 64 % 64 / 4 ≡ b = omega arith in
    rw (r.1, p.0, q.0, r.0) (λ i. first i ∷ second i ∷ [])

-- Decoding the encoded text of bytes, numbers below 256, gives them back.
pub base64_decode-base64_encode :
    (src : Bytes) → All (λ x. x < 256) src → base64_decode (base64_encode src) ≡ src
base64_decode-base64_encode [] h = unfold base64_encode encode_groups pad_last in refl
base64_decode-base64_encode (a ∷ []) h = decode-encode_one a h.0
base64_decode-base64_encode (a ∷ b ∷ []) h = decode-encode_two a b h.0 h.1.0
base64_decode-base64_encode (a ∷ b ∷ c ∷ rest) h =
    ap base64_decode (base64_encode_step a b c rest)
    ∙ decode-encode_group a b c (base64_encode rest) h.0 h.1.0 h.1.1.0
    ∙ ap (λ l. a ∷ b ∷ c ∷ l) (base64_decode-base64_encode rest h.1.1.1)
