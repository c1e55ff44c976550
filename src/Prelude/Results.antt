-- ===== src/Prelude/Results.antt =====
-- What holds of a result that may be missing.
use mathlib.Core.Path.{◌≡◌, subst}
use mathlib.Core.Option.{Option, none, some}

-- The result, if there is one, satisfies `P`.
abbrev pub Ensures : {A : Type 0} → (A → Type 0) → Option A → Type 0
Ensures P none = Unit
Ensures P (some a) = P a

pub Ensures_of :
    {A : Type 0} (P : A → Type 0) (o : Option A) (a : A) → o ≡ some a → Ensures P o → P a
Ensures_of P none a e h = absurd (cc)
Ensures_of P (some b) a e h = subst P (cc) h
