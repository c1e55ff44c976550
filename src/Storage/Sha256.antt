-- ===== src/Storage/Sha256.antt =====
-- SHA-256 of src/storage/storage_local.c, byte by byte as the source streams it.
pub mod Digest
use Prim.Native.Nat.{bit_and, bit_xor}
use kaufbot.Prelude.{
  ℕ, zero, suc, true, false, ◌+◌, ◌-◌, ◌*◌, ◌/◌, ◌%◌, ◌^◌, ◌≡◌, refl, List, [], ◌∷◌, ◌++◌, get_or,
  set, ◌==◌, ltb, if◌then◌else◌,
}
use kaufbot.CText.{Text, codes}
use kaufbot.Backend.{Bytes}

-- `uint32_t` and `uint64_t`
abbrev pub word : ℕ → ℕ
word n = n % 2 ^ 32

abbrev pub word64 : ℕ → ℕ
word64 n = n % 2 ^ 64

abbrev round_keys : List ℕ
round_keys =
    0x428a2f98 ∷ 0x71374491 ∷ 0xb5c0fbcf ∷ 0xe9b5dba5 ∷ 0x3956c25b ∷ 0x59f111f1 ∷ 0x923f82a4
    ∷ 0xab1c5ed5 ∷ 0xd807aa98 ∷ 0x12835b01 ∷ 0x243185be ∷ 0x550c7dc3 ∷ 0x72be5d74 ∷ 0x80deb1fe
    ∷ 0x9bdc06a7 ∷ 0xc19bf174 ∷ 0xe49b69c1 ∷ 0xefbe4786 ∷ 0x0fc19dc6 ∷ 0x240ca1cc ∷ 0x2de92c6f
    ∷ 0x4a7484aa ∷ 0x5cb0a9dc ∷ 0x76f988da ∷ 0x983e5152 ∷ 0xa831c66d ∷ 0xb00327c8 ∷ 0xbf597fc7
    ∷ 0xc6e00bf3 ∷ 0xd5a79147 ∷ 0x06ca6351 ∷ 0x14292967 ∷ 0x27b70a85 ∷ 0x2e1b2138 ∷ 0x4d2c6dfc
    ∷ 0x53380d13 ∷ 0x650a7354 ∷ 0x766a0abb ∷ 0x81c2c92e ∷ 0x92722c85 ∷ 0xa2bfe8a1 ∷ 0xa81a664b
    ∷ 0xc24b8b70 ∷ 0xc76c51a3 ∷ 0xd192e819 ∷ 0xd6990624 ∷ 0xf40e3585 ∷ 0x106aa070 ∷ 0x19a4c116
    ∷ 0x1e376c08 ∷ 0x2748774c ∷ 0x34b0bcb5 ∷ 0x391c0cb3 ∷ 0x4ed8aa4a ∷ 0x5b9cca4f ∷ 0x682e6ff3
    ∷ 0x748f82ee ∷ 0x78a5636f ∷ 0x84c87814 ∷ 0x8cc70208 ∷ 0x90befffa ∷ 0xa4506ceb ∷ 0xbef9a3f7
    ∷ 0xc67178f2 ∷ []

-- `ROR32`: `x << (32 - n)` drops what leaves the word, and the two parts share no bit.
ror32 : ℕ → ℕ → ℕ
ror32 x n = x / 2 ^ n + word (x * 2 ^ (32 - n))

xor3 : ℕ → ℕ → ℕ → ℕ
xor3 a b c = bit_xor (bit_xor a b) c

ch : ℕ → ℕ → ℕ → ℕ
ch x y z = bit_xor (bit_and x y) (bit_and (2 ^ 32 - 1 - x) z)

maj : ℕ → ℕ → ℕ → ℕ
maj x y z = xor3 (bit_and x y) (bit_and x z) (bit_and y z)

big_sigma0 : ℕ → ℕ
unfolding ror32 xor3
big_sigma0 x = xor3 (ror32 x 2) (ror32 x 13) (ror32 x 22)

big_sigma1 : ℕ → ℕ
unfolding ror32 xor3
big_sigma1 x = xor3 (ror32 x 6) (ror32 x 11) (ror32 x 25)

small_sigma0 : ℕ → ℕ
unfolding ror32 xor3
small_sigma0 x = xor3 (ror32 x 7) (ror32 x 18) (x / 2 ^ 3)

small_sigma1 : ℕ → ℕ
unfolding ror32 xor3
small_sigma1 x = xor3 (ror32 x 17) (ror32 x 19) (x / 2 ^ 10)

pub record Registers : Type 0 where
  pub a : ℕ
  pub b : ℕ
  pub c : ℕ
  pub d : ℕ
  pub e : ℕ
  pub f : ℕ
  pub g : ℕ
  pub h : ℕ

-- `SHA256_CTX`
pub record Context : Type 0 where
  pub state : Registers
  pub count : ℕ
  pub buf : Bytes

-- The first 16 words of the schedule, the latest first: four bytes each, most significant first.
load_words : ℕ → Bytes → List ℕ → List ℕ
load_words zero bytes m = m
load_words (suc n) (p ∷ q ∷ r ∷ s ∷ rest) m =
    load_words n rest ((p * 2 ^ 24 + q * 2 ^ 16 + r * 2 ^ 8 + s) ∷ m)
load_words (suc n) short m = m

-- `m[i] = s1(m[i - 2]) + m[i - 7] + s0(m[i - 15]) + m[i - 16]`, for `rounds` words.
extend_words : ℕ → List ℕ → List ℕ
unfolding small_sigma0 small_sigma1
extend_words zero m = m
extend_words (suc rounds) m = extend_words rounds (
    word (small_sigma1 (get_or m 1 0) + get_or m 6 0 + small_sigma0 (get_or m 14 0) + get_or m 15 0)
    ∷ m)

reverse_onto : List ℕ → List ℕ → List ℕ
reverse_onto [] out = out
reverse_onto (x ∷ xs) out = reverse_onto xs (x ∷ out)

round_step : ℕ → ℕ → Registers → Registers
unfolding ch maj big_sigma0 big_sigma1
round_step k m r =
    let t₁ = word (r.h + big_sigma1 r.e + ch r.e r.f r.g + k + m) in
    let t₂ = word (big_sigma0 r.a + maj r.a r.b r.c) in
    record {
      a = word (t₁ + t₂);
      b = r.a;
      c = r.b;
      d = r.c;
      e = word (r.d + t₁);
      f = r.e;
      g = r.f;
      h = r.g;
    }

rounds : List ℕ → List ℕ → Registers → Registers
unfolding round_step
rounds [] ms r = r
rounds (k ∷ ks) [] r = r
rounds (k ∷ ks) (m ∷ ms) r = rounds ks ms (round_step k m r)

add_registers : Registers → Registers → Registers
add_registers r s = record {
  a = word (r.a + s.a);
  b = word (r.b + s.b);
  c = word (r.c + s.c);
  d = word (r.d + s.d);
  e = word (r.e + s.e);
  f = word (r.f + s.f);
  g = word (r.g + s.g);
  h = word (r.h + s.h);
}

-- `sha256_transform`
sha256_transform : Registers → Bytes → Registers
unfolding load_words extend_words reverse_onto rounds add_registers
sha256_transform r bytes =
    add_registers r
      (rounds round_keys (reverse_onto (extend_words 48 (load_words 16 bytes [])) []) r)

abbrev zero_buffer : ℕ → Bytes
zero_buffer zero = []
zero_buffer (suc n) = 0 ∷ zero_buffer n

-- `sha256_init`; the buffer is not set there, and each byte of it is written before it is read.
sha256_init : Context
sha256_init = record {
  state = record {
    a = 0x6a09e667;
    b = 0xbb67ae85;
    c = 0x3c6ef372;
    d = 0xa54ff53a;
    e = 0x510e527f;
    f = 0x9b05688c;
    g = 0x1f83d9ab;
    h = 0x5be0cd19;
  };
  count = 0;
  buf = zero_buffer 64;
}

-- One round of the loop of `sha256_update`.
update_byte : Context → ℕ → Context
update_byte ctx x =
    let buf = set ctx.buf (ctx.count % 64) x in
    let count = word64 (ctx.count + 1) in
    let state = sha256_transform ctx.state buf in
    if count % 64 == 0
    then record { state = state; count = count; buf = buf }
    else record { state = ctx.state; count = count; buf = buf }

-- `sha256_update`
sha256_update : Context → Bytes → Context
unfolding update_byte
sha256_update ctx [] = ctx
sha256_update ctx (x ∷ xs) = sha256_update (update_byte ctx x) xs

-- `while (ctx->count % 64 != 56) sha256_update(ctx, &pad, 1);`
pad_zeros : ℕ → Context → Context
unfolding update_byte
pad_zeros zero ctx = ctx
pad_zeros (suc fuel) ctx = elim (ctx.count % 64 == 56) [
  | true ↦ ctx
  | false ↦ pad_zeros fuel (update_byte ctx 0)
]

-- The `n` low bytes of a number, most significant first.
be_bytes : ℕ → ℕ → Bytes
be_bytes zero x = []
be_bytes (suc n) x = (x / 2 ^ (8 * n)) % 256 ∷ be_bytes n x

-- `sha256_final`; 63 rounds of padding always reach 56.
sha256_final : Context → Bytes
unfolding sha256_update pad_zeros be_bytes
sha256_final ctx =
    let bit_count = word64 (ctx.count * 8) in
    let padded = pad_zeros 64 (update_byte ctx 0x80) in
    let r = (sha256_update padded (be_bytes 8 bit_count)).state in
    be_bytes 4 r.a
    ++ (be_bytes 4 r.b
        ++ (be_bytes 4 r.c
            ++ (be_bytes 4 r.d
                ++ (be_bytes 4 r.e ++ (be_bytes 4 r.f ++ (be_bytes 4 r.g ++ be_bytes 4 r.h))))))

hex_digit : ℕ → ℕ
hex_digit n = if ltb n 10 then b'0' + n else b'a' + (n - 10)

-- `"%02x"` of each byte
hex_bytes : Bytes → Text
unfolding hex_digit
hex_bytes [] = []
hex_bytes (x ∷ xs) = hex_digit (x / 16) ∷ hex_digit (x % 16) ∷ hex_bytes xs

-- `storage_sha256_hex`
unfoldable pub sha256_hex : Bytes → Text
unfolding sha256_init sha256_update sha256_final hex_bytes sha256_transform
sha256_hex data_bytes = hex_bytes (sha256_final (sha256_update sha256_init data_bytes))

sha256_hex_test :
    sha256_hex (codes "abc")
    ≡ codes "ba7816bf8f01cfea414140de5dae2223b00361a396177a9cb410ff61f20015ad"
unfolding sha256_hex sha256_transform
sha256_hex_test = refl
