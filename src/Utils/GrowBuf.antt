-- ===== src/Utils/GrowBuf.antt =====
-- `growbuf_write_cb`, src/utils.c.
pub mod Room
use kaufbot.Prelude.{
  ℕ, zero, suc, ◌+◌, ◌*◌, ◌%◌, ◌^◌, Bool, true, false, Option, none, some, [], ◌++◌, length, ltb,
  ◌==◌, if◌then◌else◌,
}
use kaufbot.Backend.{Bytes}

abbrev pub growbuf_initial_cap : ℕ
growbuf_initial_cap = 8192

-- `GrowBuf`: `data` holds the `len` bytes in use of the `cap` that are allocated.
pub record GrowBuf : Type 0 where
  pub data_bytes : Bytes
  pub cap_bytes : ℕ

-- `while (new_cap < needed) new_cap *= 2;` on `size_t`; `none` is a loop that is still running.
unfoldable pub double_until : ℕ → ℕ → ℕ → Option ℕ
double_until zero new_cap needed = if ltb new_cap needed then none else some new_cap
double_until (suc fuel) new_cap needed =
    let more = double_until fuel (new_cap * 2 % 2 ^ 64) needed in
    if ltb new_cap needed then more else some new_cap

-- The start of the loop.
unfoldable pub first_cap : ℕ → ℕ
first_cap size = if size == 0 then growbuf_initial_cap else size * 2 % 2 ^ 64

-- Behind the loop: a failed `realloc` returns 0 and leaves the buffer as it was.
unfoldable pub grow_and_copy : Bool → Bytes → GrowBuf → ℕ → ℕ × GrowBuf
grow_and_copy false incoming buf size = (0, buf)
grow_and_copy true incoming buf size =
    (length incoming, record { data_bytes = buf.data_bytes ++ incoming; cap_bytes = size })

abbrev and_then : Option ℕ → (ℕ → ℕ × GrowBuf) → Option (ℕ × GrowBuf)
and_then none f = none
and_then (some size) f = some (f size)

-- From `needed` on.
unfoldable pub write_needed : ℕ → ℕ → Bool → Bytes → GrowBuf → Option (ℕ × GrowBuf)
unfolding double_until first_cap grow_and_copy
write_needed fuel needed allocated incoming buf =
    if ltb buf.cap_bytes needed
    then and_then (double_until fuel (first_cap buf.cap_bytes) needed)
        (grow_and_copy allocated incoming buf)
    else some (grow_and_copy true incoming buf buf.cap_bytes)

-- `growbuf_write_cb` for `incoming`, where `allocated` is whether `realloc` succeeds. `needed` is a
-- `size_t`.
unfoldable pub growbuf_write : ℕ → Bool → Bytes → GrowBuf → Option (ℕ × GrowBuf)
unfolding write_needed
growbuf_write fuel allocated incoming buf =
    write_needed fuel ((length buf.data_bytes + length incoming + 1) % 2 ^ 64) allocated incoming
      buf
