-- ===== src/CText.antt =====
-- C strings as lists of bytes without the terminator, and the calls of <string.h>, <stdio.h> and
-- <stdlib.h> that the program makes on them.
pub mod Decimal
pub mod Search
pub mod Tokens
use Prim.Native.Char.{code}
use kaufbot.Prelude.{
  ℕ, zero, suc, ◌-◌, ◌≤◌, String, ◌≡◌, refl, ◌↔◌, Bool, true, false, ◌&&◌, List, [], ◌∷◌, take,
  length, length-take, arith, ◌==◌, ==_iff,
}

-- The bytes of a `char *`, up to its NUL.
abbrev pub Text : Type 0
Text = List ℕ

-- The bytes of an ASCII literal.
abbrev pub codes : String → Text
codes String.[] = []
codes (String.◌∷◌ c s) = code c ∷ codes s

-- `strcmp(a, b) == 0`
unfoldable pub text_eq : Text → Text → Bool
text_eq [] [] = true
text_eq [] (y ∷ ys) = false
text_eq (x ∷ xs) [] = false
text_eq (x ∷ xs) (y ∷ ys) = x == y && text_eq xs ys

pub text_eq_iff : (a b : Text) → (text_eq a b ≡ true) ↔ (a ≡ b)
unfolding text_eq
text_eq_iff [] [] = ground arith
text_eq_iff [] (y ∷ ys) = ground arith
text_eq_iff (x ∷ xs) [] = ground arith
text_eq_iff (x ∷ xs) (y ∷ ys) = ground (arith, text_eq_iff xs ys)

-- `strncmp(text, prefix, strlen(prefix)) == 0`
unfoldable pub has_prefix : Text → Text → Bool
has_prefix text [] = true
has_prefix [] (p ∷ ps) = false
has_prefix (c ∷ cs) (p ∷ ps) = c == p && has_prefix cs ps

-- `snprintf(buf, size, "%s", text)` on a buffer of `size` bytes, one of them the NUL.
unfoldable pub copy_to : ℕ → Text → Text
copy_to size text = take (size - 1) text

pub length-copy_to : (size : ℕ) (text : Text) → length (copy_to size text) ≤ size - 1
unfolding copy_to
length-copy_to size text = omega (arith, length-take (size - 1) text)

-- `while (*p == c) p++;`
unfoldable pub skip_while : (ℕ → Bool) → Text → Text
skip_while p [] = []
skip_while p (c ∷ cs) = let rest = skip_while p cs in elim (p c) [ true ↦ rest | false ↦ c ∷ cs ]

unfoldable pub skip_spaces : Text → Text
unfolding skip_while
skip_spaces = skip_while (λ c. c == b' ')
