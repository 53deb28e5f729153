-- ===== src/Base/Dict.antt =====
-- Dicts in insertion order, with the laws by which proofs elsewhere go.
use mathlib.Core.Path.{◌≡◌, refl}
use mathlib.Core.Bool.{Bool, true, false, not}
use mathlib.Core.Option.{Option, none, some}
use mathlib.Core.List.{List, [], ◌∷◌, ◌++◌}
use native.Mathlib.Omega.{arith}
use syno_plex_change_monitor.Base.Equality.{Eq, ◌==◌, contains, if◌then◌else◌}

abbrev pub Dict {ℓ κ} : Type ℓ → Type κ → Type (ℓ ⊔ κ)
Dict K V = List (K × V)

unfoldable pub keys {ℓ κ} : {K : Type ℓ} {V : Type κ} → Dict K V → List K
keys [] = []
keys ((k, _) ∷ d) = k ∷ keys d

unfoldable pub values {ℓ κ} : {K : Type ℓ} {V : Type κ} → Dict K V → List V
values [] = []
values ((_, v) ∷ d) = v ∷ values d

module _ {ℓ κ} {K : Type ℓ} {V : Type κ} ⦃e : Eq K⦄ where
  -- `d.get(k)`
  unfoldable pub lookup : K → Dict K V → Option V
  lookup k [] = none
  lookup k ((j, v) ∷ d) = if k == j then some v else lookup k d

  -- `k in d`
  unfoldable pub has_key : K → Dict K V → Bool
  unfolding lookup
  has_key k d = elim (lookup k d) [ none ↦ false | some _ ↦ true ]

  -- `d[k] = v`
  unfoldable pub insert : K → V → Dict K V → Dict K V
  insert k v [] = (k, v) ∷ []
  insert k v ((j, w) ∷ d) = if k == j then (k, v) ∷ d else (j, w) ∷ insert k v d

  -- The entries whose keys pass a test.
  unfoldable pub keep : (K → Bool) → Dict K V → Dict K V
  keep p [] = []
  keep p ((j, w) ∷ d) = let rest = keep p d in if p j then (j, w) ∷ rest else rest

  -- `d.pop(k, None)`
  abbrev pub erase : K → Dict K V → Dict K V
  erase k d = keep (λ j. not (k == j)) d

  pub lookup-insert :
      (j k : K) (v : V) (d : Dict K V)
      → lookup j (insert k v d) ≡ (if j == k then some v else lookup j d)
  unfolding insert lookup
  lookup-insert j k v [] = ground arith
  lookup-insert j k v (_ ∷ d) = ground (arith, lookup-insert j k v d)

  pub lookup-keep :
      (p : K → Bool) (j : K) (d : Dict K V)
      → lookup j (keep p d) ≡ (if p j then lookup j d else none)
  unfolding keep lookup
  lookup-keep p j [] = ground arith
  lookup-keep p j ((i, w) ∷ d) = ground (arith, lookup-keep p j d)

  pub lookup-erase :
      (j k : K) (d : Dict K V) → lookup j (erase k d) ≡ (if k == j then none else lookup j d)
  lookup-erase j k d = rw lookup-keep (ground arith)

  pub lookup-append :
      (j : K) (c d : Dict K V)
      → lookup j (c ++ d) ≡ (if has_key j c then lookup j c else lookup j d)
  unfolding has_key
  lookup-append j [] d = refl
  lookup-append j (_ ∷ c) d = ground (arith, lookup-append j c d)

  pub has_key-insert :
      (j k : K) (v : V) (d : Dict K V)
      → has_key j (insert k v d) ≡ (if j == k then true else has_key j d)
  unfolding has_key
  has_key-insert j k v d = ground (arith, lookup-insert j k v d)

  pub has_key-keep :
      (p : K → Bool) (j : K) (d : Dict K V)
      → has_key j (keep p d) ≡ (if p j then has_key j d else false)
  unfolding has_key
  has_key-keep p j d = ground (arith, lookup-keep p j d)

  pub contains-keys : (d : Dict K V) (k : K) → contains (keys d) k ≡ has_key k d
  unfolding keys has_key
  contains-keys [] k = refl
  contains-keys (_ ∷ d) k = ground (arith, contains-keys d k)

pub ruleset dict_laws = (lookup-insert, lookup-keep, lookup-erase, has_key-insert, has_key-keep)
