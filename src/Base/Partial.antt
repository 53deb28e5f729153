-- ===== src/Base/Partial.antt =====
-- Chains of steps that may have no value.
use mathlib.Core.Path.{◌≡◌}
use native.Mathlib.Omega.{arith}
use mathlib.Core.Option.{Option, none, some}

infixl 5 ◌>>=◌
abbrev pub ◌>>=◌ {ℓ κ} : {A : Type ℓ} {B : Type κ} → Option A → (A → Option B) → Option B
some a >>= f = f a
none >>= f = none

-- What holds of every value of the rest holds of the whole.
pub through_some :
    {A B : Type 0} (P : B → Type 0) (o : Option A) (f : A → Option B) (b : B)
    → ((a : A) → f a ≡ some b → P b)
    → (o >>= f) ≡ some b
    → P b
through_some P none f b h e = absurd (ground arith)
through_some P (some a) f b h e = h a e
