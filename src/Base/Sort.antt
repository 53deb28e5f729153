-- ===== src/Base/Sort.antt =====
-- Python's `sorted`, which is stable, and the order of its texts.
use syno_plex_change_monitor.Base.Equality.{ltb, if◌then◌else◌, ◌==◌, nat_eq}
use mathlib.Core.Bool.{Bool, true, false, ◌&&◌, ◌||◌}
use mathlib.Core.List.{List, [], ◌∷◌}
use syno_plex_change_monitor.Base.Text.{Text}

-- `a <= b`
abbrev pub text_leb : Text → Text → Bool
text_leb [] b = true
text_leb (c ∷ a) [] = false
text_leb (c ∷ a) (d ∷ b) = let rest = text_leb a b in ltb c d || (c == d && rest)

module _ {ℓ} {A : Type ℓ} (before : A → A → Bool) where
  unfoldable pub insert_sorted : A → List A → List A
  insert_sorted x [] = x ∷ []
  insert_sorted x (y ∷ ys) =
      let rest = insert_sorted x ys in if before x y then x ∷ y ∷ ys else y ∷ rest

  unfoldable pub sorted : List A → List A
  unfolding insert_sorted
  sorted [] = []
  sorted (x ∷ xs) = insert_sorted x (sorted xs)
