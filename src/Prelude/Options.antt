-- ===== src/Prelude/Options.antt =====
-- Chains of optional results; `none` stands for an absent value, or for a panic of the code.
use mathlib.Core.Option.{Option, none, some}

infixl 5 ◌>>=◌
abbrev pub ◌>>=◌ {ℓ κ} : {A : Type ℓ} {B : Type κ} → Option A → (A → Option B) → Option B
none >>= f = none
some a >>= f = f a
