-- ===== src/Utils/Base64.antt =====
-- `base64_encode`, src/utils.c.
pub mod RoundTrip
use kaufbot.Prelude.{ℕ, ◌+◌, ◌-◌, ◌*◌, ◌/◌, ◌%◌, [], ◌∷◌, length, get_or, set, ◌==◌, if◌then◌else◌}
use kaufbot.CText.{Text, codes}
use kaufbot.Backend.{Bytes}

abbrev pub b64_chars : Text
b64_chars = codes "ABCDEFGHIJKLMNOPQRSTUVWXYZabcdefghijklmnopqrstuvwxyz0123456789+/"

-- `B64_CHARS[n]`
unfoldable pub b64_char : ℕ → ℕ
b64_char n = get_or b64_chars n 0

-- One round of the loop: `(a << 16) | (b << 8) | c`, written as four characters.
unfoldable pub encode_group : ℕ → ℕ → ℕ → Text → Text
unfolding b64_char
encode_group a b c more =
    let triple = a * 65536 + b * 256 + c in
    b64_char (triple / 262144 % 64)
    ∷ b64_char (triple / 4096 % 64)
    ∷ b64_char (triple / 64 % 64)
    ∷ b64_char (triple % 64)
    ∷ more

-- The loop, which reads 0 past the end.
unfoldable pub encode_groups : Bytes → Text
unfolding encode_group
encode_groups [] = []
encode_groups (a ∷ []) = encode_group a 0 0 []
encode_groups (a ∷ b ∷ []) = encode_group a b 0 []
encode_groups (a ∷ b ∷ c ∷ rest) = encode_group a b c (encode_groups rest)

-- The writes of `=` behind the loop, on the `len` bytes of the source.
unfoldable pub pad_last : ℕ → Text → Text
pad_last len out =
    let j = length out in
    if len % 3 == 1
    then set (set out (j - 1) b'=') (j - 2) b'='
    else if len % 3 == 2
    then set out (j - 1) b'='
    else out

unfoldable pub base64_encode : Bytes → Text
unfolding encode_groups pad_last
base64_encode src = pad_last (length src) (encode_groups src)
