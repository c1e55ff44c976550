-- ===== src/Storage/Sha256/Digest.antt =====
-- The shape of the text that `storage_sha256_hex` writes (src/storage/storage_local.c).
use kaufbot.Prelude.{ℕ, zero, suc, ◌*◌, ◌≡◌, refl, ap, [], ◌∷◌, arith, length}
use kaufbot.Backend.{Bytes}
use kaufbot.Storage.Sha256.{
  Context, be_bytes, hex_bytes, sha256_init, sha256_update, sha256_final, sha256_hex,
}

length-be_bytes : (n x : ℕ) → length (be_bytes n x) ≡ n
unfolding be_bytes
length-be_bytes zero x = refl
length-be_bytes (suc n) x = ap suc (length-be_bytes n x)

length-sha256_final : (ctx : Context) → length (sha256_final ctx) ≡ 32
unfolding sha256_final
length-sha256_final ctx = refl

length-hex_bytes : (b : Bytes) → length (hex_bytes b) ≡ 2 * length b
unfolding hex_bytes
length-hex_bytes [] = refl
length-hex_bytes (x ∷ xs) = omega (arith, length-hex_bytes xs)

-- A digest is written as 64 characters, for input of any length.
pub length-sha256_hex : (b : Bytes) → length (sha256_hex b) ≡ 64
unfolding sha256_hex
length-sha256_hex b =
    let out = sha256_final (sha256_update sha256_init b) in
    omega (arith, length-hex_bytes out, length-sha256_final (sha256_update sha256_init b))
