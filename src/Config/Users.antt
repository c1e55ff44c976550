-- ===== src/Config/Users.antt =====
-- `parse_user_ids`, src/config.c.
pub mod RoundTrip
pub mod Bounds
use kaufbot.Prelude.{
  ℕ, zero, suc, Bool, true, false, Option, none, some, List, [], ◌∷◌, ℤ, ◌≡◌, refl,
}
use kaufbot.CText.{Text, codes, copy_to, skip_spaces}
use kaufbot.CText.Tokens.{tokens}
use kaufbot.CText.Decimal.{strtoll}
use kaufbot.Config.{max_allowed_users}

-- An id in front of the ids that are read after it; `none` is the return of -1.
add_id : Option (ℤ × Text) → Option (List ℤ) → Option (List ℤ)
add_id none rest = none
add_id (some (id, end)) none = none
add_id (some (id, end)) (some ids) = some (id ∷ ids)

-- The loop over the tokens, with the places left in `allowed_users`. What follows the number in a
-- token is not read.
parse_ids : ℕ → List Text → Option (List ℤ)
unfolding add_id
parse_ids zero toks = some []
parse_ids (suc room) [] = some []
parse_ids (suc room) (tok ∷ toks) = add_id (strtoll (skip_spaces tok)) (parse_ids room toks)

-- `parse_user_ids`: the ids, or `none` for a token that is no number.
unfoldable pub parse_user_ids : Text → Option (List ℤ)
unfolding parse_ids
parse_user_ids raw = parse_ids max_allowed_users (tokens b',' (copy_to 1024 raw))
