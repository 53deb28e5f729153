-- ===== src/Base/Distinct.antt =====
-- Lists without repetition, and the keys of rows under the updates of a table.
use mathlib.Core.Path.{sym, ◌≡◌, refl}
use mathlib.Core.Logic.{inl, inr}
use mathlib.Core.Bool.{Bool, true, false}
use mathlib.Core.List.{List, [], ◌∷◌, ◌++◌, map}
use native.Mathlib.Omega.{arith}
use syno_plex_change_monitor.Base.Equality.{Eq, contains, ◌==◌, Bool-cases}
use syno_plex_change_monitor.Base.Lists.{filter, All}

module _ {ℓ} {A : Type ℓ} ⦃e : Eq A⦄ where
  abbrev pub Distinct : List A → Type 0
  Distinct [] = Unit
  Distinct (x ∷ xs) = (contains xs x ≡ false) × Distinct xs

  pub Distinct-append_one :
      (xs : List A) (x : A) → Distinct xs → contains xs x ≡ false → Distinct (xs ++ (x ∷ []))
  Distinct-append_one [] x d h = (refl, tt)
  Distinct-append_one (y ∷ xs) x (h, d) k =
      (ground (arith, contains-append_one xs x y h), Distinct-append_one xs x d (ground arith))
    where
      contains-append_one :
          (zs : List A) (x y : A) → contains zs y ≡ false → contains (zs ++ (x ∷ [])) y ≡ (y == x)
      contains-append_one [] x y h = ground arith
      contains-append_one (z ∷ zs) x y h = ground (arith, contains-append_one zs x y (ground arith))

module _ {ℓ κ} {A : Type ℓ} {K : Type κ} ⦃e : Eq K⦄ (key : A → K) where
  pub contains-map-filter :
      (p : A → Bool) (xs : List A) (k : K)
      → contains (map key xs) k ≡ false
      → contains (map key (filter p xs)) k ≡ false
  contains-map-filter p [] k h = refl
  contains-map-filter p (x ∷ xs) k h = ground (arith, contains-map-filter p xs k)

  pub Distinct-map-filter :
      (p : A → Bool) (xs : List A) → Distinct (map key xs) → Distinct (map key (filter p xs))
  Distinct-map-filter p [] d = tt
  Distinct-map-filter p (x ∷ xs) (h, d) = elim (Bool-cases (p x)) [
    | inl t ↦ rw t (contains-map-filter p xs (key x) h, Distinct-map-filter p xs d)
    | inr f ↦ rw f (Distinct-map-filter p xs d)
  ]

  -- A key stays if its rows pass the test.
  pub contains-map_kept :
      (p : A → Bool) (xs : List A) (k : K)
      → ((x : A) → key x ≡ k → p x ≡ true)
      → contains (map key xs) k ≡ true
      → contains (map key (filter p xs)) k ≡ true
  contains-map_kept p [] k f h = h
  contains-map_kept p (x ∷ xs) k f h = elim (e.dec k (key x)) [
    | yes q ↦ ground (arith, f x (sym q))
    | no n ↦ ground (arith, contains-map_kept p xs k f (ground arith))
  ]

module _ {ℓ} {A : Type ℓ} where
  -- What holds of the rows that pass a test, given that they pass it.
  pub All-filter_map {κ μ} :
      (P : A → Type κ) (Q : A → Type μ) (p : A → Bool)
      → ((x : A) → P x → p x ≡ true → Q x)
      → (xs : List A) → All P xs
      → All Q (filter p xs)
  All-filter_map P Q p f [] h = tt
  All-filter_map P Q p f (x ∷ xs) (h, hs) = elim (Bool-cases (p x)) [
    | inl t ↦ rw t (f x h t, All-filter_map P Q p f xs hs)
    | inr t ↦ rw t (All-filter_map P Q p f xs hs)
  ]

  pub All-zip {κ μ} :
      (P : A → Type κ) (Q : A → Type μ) (xs : List A)
      → All P xs
      → All Q xs
      → All (λ x. P x × Q x) xs
  All-zip P Q [] p q = tt
  All-zip P Q (x ∷ xs) (p, ps) (q, qs) = ((p, q), All-zip P Q xs ps qs)
