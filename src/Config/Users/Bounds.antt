-- ===== src/Config/Users/Bounds.antt =====
-- How many ids `config_load` and `parse_user_ids` (src/config.c) let pass.
use kaufbot.Prelude.{
  ℕ, zero, suc, ◌≤◌, Option, none, some, List, [], ◌∷◌, length, arith, ℤ, Ensures,
}
use kaufbot.CText.{Text, copy_to}
use kaufbot.CText.Tokens.{tokens}
use kaufbot.Config.{max_allowed_users}
use kaufbot.Config.Users.{add_id, parse_ids, parse_user_ids}
use kaufbot.Config.Load.{at_least_one}

few_ids :
    (room : ℕ) (o : Option (ℤ × Text)) (rest : Option (List ℤ))
    → Ensures (λ ids. length ids ≤ room) rest
    → Ensures (λ ids. length ids ≤ suc room) (add_id o rest)
unfolding add_id
few_ids room none rest h = tt
few_ids room (some (id, end)) none h = tt
few_ids room (some (id, end)) (some ids) h = omega arith

parse_ids_few :
    (room : ℕ) (toks : List Text) → Ensures (λ ids. length ids ≤ room) (parse_ids room toks)
unfolding parse_ids
parse_ids_few zero toks = omega arith
parse_ids_few (suc room) [] = omega arith
parse_ids_few (suc room) (tok ∷ toks) = few_ids room _ _ (parse_ids_few room toks)

-- At least one id, and at most as many as there is room for.
abbrev pub IdsFit : List ℤ → Type 0
IdsFit ids = (1 ≤ length ids) × (length ids ≤ 32)

IdsFit-at_least_one :
    (o : Option (List ℤ)) → Ensures (λ ids. length ids ≤ 32) o → Ensures IdsFit (at_least_one o)
unfolding at_least_one
IdsFit-at_least_one none h = tt
IdsFit-at_least_one (some []) h = tt
IdsFit-at_least_one (some (id ∷ ids)) h = (omega arith, h)

pub IdsFit-parse_user_ids : (raw : Text) → Ensures IdsFit (at_least_one (parse_user_ids raw))
unfolding parse_user_ids
IdsFit-parse_user_ids raw =
    IdsFit-at_least_one _ (parse_ids_few max_allowed_users (tokens b',' (copy_to 1024 raw)))
