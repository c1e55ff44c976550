-- ===== src/Prelude/State.antt =====
-- A call on a world `W` that the program's collaborators change: state passing with `do` blocks.

abbrev pub Call : Type 0 → Type 0 → Type 0
Call W A = W → A × W

abbrev pub pure : {W A : Type 0} → A → Call W A
pure a w = (a, w)

infixl 5 ◌>>=◌ ◌>>◌
abbrev pub ◌>>=◌ : {W A B : Type 0} → Call W A → (A → Call W B) → Call W B
◌>>=◌ m f w = let (a, w') = m w in f a w'

abbrev pub ◌>>◌ : {W A B : Type 0} → Call W A → Call W B → Call W B
m >> k = m >>= λ _. k

-- A call after which `P` holds if it held before.
abbrev pub Keeps : {W A : Type 0} → (W → Type 0) → Call W A → Type 0
Keeps {W} P m = (w : W) → P w → P (m w).1
