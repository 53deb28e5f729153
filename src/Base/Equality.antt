-- ===== src/Base/Equality.antt =====
-- Python's `==`, `in` and the tests on numbers, for every type whose equality can be decided.
use Prim.Native.Nat.{ℕ, compare, Ordering}
use mathlib.Core.Path.{◌≡◌, refl}
use mathlib.Core.Logic.{ite, ◌⊎◌, inl, inr, ◌↔◌}
use mathlib.Core.Bool.{Bool, true, false, cond, ◌||◌, Bool-discrete}
use mathlib.Core.Option.{Option}
use mathlib.Core.List.{List, [], ◌∷◌}
use native.Mathlib.Decide.{ℕ_discrete}
use native.Mathlib.Omega.{arith}

infix 1 if◌then◌else◌
abbrev pub if◌then◌else◌ {ℓ} : {A : Type ℓ} → Bool → A → A → A
if b then x else y = cond b x y

abbrev pub ltb : ℕ → ℕ → Bool
ltb a b = elim (compare a b) [ Ordering.lt ↦ true | _ ↦ false ]

abbrev pub leb : ℕ → ℕ → Bool
leb a b = elim (compare a b) [ Ordering.gt ↦ false | _ ↦ true ]

pub Bool-cases : (b : Bool) → (b ≡ true) ⊎ (b ≡ false)
Bool-cases true = inl refl
Bool-cases false = inr refl

pub record Eq {ℓ} (A : Type ℓ) : Type ℓ where
  pub dec : Discrete A

module _ {ℓ} {A : Type ℓ} ⦃e : Eq A⦄ where
  infix 50 ◌==◌
  abbrev pub ◌==◌ : A → A → Bool
  a == b = ite (e.dec a b) true false

  -- `x in xs`, the element last.
  abbrev pub contains : List A → A → Bool
  contains [] a = false
  contains (x ∷ xs) a = a == x || contains xs a

  pub ==_iff : (a b : A) → (a == b ≡ true) ↔ (a ≡ b)
  ==_iff a b = ground arith

  pub eq_self : (a : A) → a == a ≡ true
  eq_self a = ground arith

list_dec : {A : Type 0} → Discrete A → Discrete (List A)
list_dec d = hlevel d

pair_dec : {A B : Type 0} → Discrete A → Discrete B → Discrete (A × B)
pair_dec d e = hlevel (d, e)

option_dec : {A : Type 0} → Discrete A → Discrete (Option A)
option_dec d = hlevel d

instance unfoldable pub nat_eq : Eq ℕ
unfolding ℕ_discrete
nat_eq = record { dec = ℕ_discrete }

instance unfoldable pub list_eq : {A : Type 0} ⦃e : Eq A⦄ → Eq (List A)
unfolding list_dec
list_eq ⦃e⦄ = record { dec = list_dec e.dec }

instance unfoldable pub pair_eq : {A B : Type 0} ⦃e : Eq A⦄ ⦃f : Eq B⦄ → Eq (A × B)
unfolding pair_dec
pair_eq ⦃e⦄ ⦃f⦄ = record { dec = pair_dec e.dec f.dec }

instance unfoldable pub option_eq : {A : Type 0} ⦃e : Eq A⦄ → Eq (Option A)
unfolding option_dec
option_eq ⦃e⦄ = record { dec = option_dec e.dec }

instance unfoldable pub bool_eq : Eq Bool
bool_eq = record { dec = Bool-discrete }
