-- ===== src/Reply/Writer.antt =====
-- The pattern `pos += snprintf(buf + pos, len - pos, …)` on a buffer of `size` bytes, with `len` a
-- `size_t` and `pos` an `int`.
pub mod Bounds
use kaufbot.Prelude.{
  ℕ, ◌+◌, ◌-◌, Bool, true, false, List, [], ◌∷◌, ◌++◌, take, length, ltb, ◌==◌, if◌then◌else◌,
}
use kaufbot.CText.{Text}

-- `text` is the C string in the buffer, and `pos` the length that the calls asked for.
-- `wrapped` records a call with `pos` past the end: `len - pos` is then a huge `size_t`, and the
-- bytes go behind the buffer.
pub record Buffer : Type 0 where
  pub text : Text
  pub pos : ℕ
  pub wrapped : Bool

abbrev pub empty : Buffer
empty = record { text = []; pos = 0; wrapped = false }

-- One call. With `pos == size` the size is 0 and nothing is written.
unfoldable pub append : ℕ → Buffer → Text → Buffer
append size b s =
    if ltb b.pos size
    then record {
      text = b.text ++ take (size - b.pos - 1) s;
      pos = b.pos + length s;
      wrapped = b.wrapped;
    }
    else if b.pos == size
    then record b { pos = b.pos + length s }
    else record b { pos = b.pos + length s; wrapped = true }

-- The calls of a sequence, one after the other.
unfoldable pub append_all : ℕ → Buffer → List Text → Buffer
append_all size b [] = b
append_all size b (s ∷ rest) = append_all size (append size b s) rest
