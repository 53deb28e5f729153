-- ===== src/Normalize/Canonical.antt =====
-- The form of what `normpath` returns.
use mathlib.Core.List.{foldl, foldl-append, reverse, reverse-cons}
use syno_plex_change_monitor.Base.{
  ◌≡◌, refl, ◌≢◌, inl, inr, Bool, true, List, [], ◌∷◌, ◌++◌, arith, nat_eq, list_eq, Bool-cases,
}
use syno_plex_change_monitor.Base.Lists.{All}
use syno_plex_change_monitor.Base.Text.{Text, slash, split, Lacks, split-Lacks}
use syno_plex_change_monitor.Normalize.{
  dot, dotdot, keeps_parent, pop, normpath_step, components, split_root,
}

-- A component that the loop of `normpath` pushes onto those before it, the last one first.
pub record IsKept (rooted : Bool) (comp : Text) (before : List Text) : Type 0 where
  pub nonempty : comp ≢ []
  pub not_dot : comp ≢ dot
  pub no_slash : Lacks slash comp
  pub parent : comp ≡ dotdot → keeps_parent rooted before ≡ true

abbrev pub IsCanonical : Bool → List Text → Type 0
IsCanonical rooted [] = Unit
IsCanonical rooted (comp ∷ before) = IsKept rooted comp before × IsCanonical rooted before

pop-IsCanonical :
    (rooted : Bool) (comps : List Text) → IsCanonical rooted comps → IsCanonical rooted (pop comps)
pop-IsCanonical rooted [] h = tt
pop-IsCanonical rooted (c ∷ cs) h = h.1

pub normpath_step-IsCanonical :
    (rooted : Bool) (comps : List Text) (comp : Text)
    → IsCanonical rooted comps
    → Lacks slash comp
    → IsCanonical rooted (normpath_step rooted comps comp)
unfolding normpath_step
normpath_step-IsCanonical rooted comps comp h k = elim (list_eq.dec comp []) [
  | yes p ↦ ground arith
  | no p ↦ elim (list_eq.dec comp dot) [
    | yes q ↦ ground arith
    | no q ↦ elim (list_eq.dec comp dotdot) [
      | no r ↦ ground arith
      | yes r ↦ elim (Bool-cases (keeps_parent rooted comps)) [
        | inl e ↦ ground arith
        | inr e ↦ ground (arith, pop-IsCanonical rooted comps h)
      ]
    ]
  ]
]

pub normpath_step_keeps :
    (rooted : Bool) (comps : List Text) (comp : Text)
    → IsKept rooted comp comps
    → normpath_step rooted comps comp ≡ comp ∷ comps
unfolding normpath_step
normpath_step_keeps rooted comps comp h = ground arith

foldl-IsCanonical :
    (rooted : Bool) (parts comps : List Text)
    → All (Lacks slash) parts
    → IsCanonical rooted comps
    → IsCanonical rooted (foldl (normpath_step rooted) comps parts)
foldl-IsCanonical rooted [] comps k h = h
foldl-IsCanonical rooted (p ∷ parts) comps (k, ks) h =
    foldl-IsCanonical rooted parts (normpath_step rooted comps p) ks
      (normpath_step-IsCanonical rooted comps p h k)

-- Reading the kept components again keeps all of them.
pub foldl-reverse :
    (rooted : Bool) (comps : List Text)
    → IsCanonical rooted comps
    → foldl (normpath_step rooted) [] (reverse comps) ≡ comps
foldl-reverse rooted [] h = refl
foldl-reverse rooted (c ∷ cs) (h, hs) =
    rw (reverse-cons, foldl-append, foldl-reverse rooted cs hs) (normpath_step_keeps rooted cs c h)

abbrev pub components_stack : Bool → Text → List Text
components_stack rooted rest = foldl (normpath_step rooted) [] (split slash rest)

pub components_stack-IsCanonical :
    (rooted : Bool) (rest : Text) → IsCanonical rooted (components_stack rooted rest)
components_stack-IsCanonical rooted rest =
    foldl-IsCanonical rooted (split slash rest) [] (split-Lacks slash rest) tt

pub components-eq-reverse :
    (rooted : Bool) (rest : Text) → components rooted rest ≡ reverse (components_stack rooted rest)
unfolding components
components-eq-reverse rooted rest = refl

pub split_root_append : (path : Text) → (split_root path).0 ++ (split_root path).1 ≡ path
unfolding split_root
split_root_append [] = refl
split_root_append (a ∷ []) = ground arith
split_root_append (a ∷ b ∷ []) = ground arith
split_root_append (a ∷ b ∷ c ∷ s) = ground arith
