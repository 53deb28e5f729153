-- ===== src/Normalize/Idempotent.antt =====
-- `normpath` and `normalize_path` return paths in normal form, and leave such paths alone.
use mathlib.Core.List.{reverse, reverse-cons}
use syno_plex_change_monitor.Base.{
  ◌≡◌, refl, sym, ap, ◌∙◌, ◌≢◌, ◌⊎◌, inl, inr, Bool, false, not, List, [], ◌∷◌, ◌++◌, arith, ◌==◌,
  nat_eq, list_eq,
}
use syno_plex_change_monitor.Base.Lists.{All, All-append}
use syno_plex_change_monitor.Base.Text.{Text, codes, slash, split, join, Lacks, split-join}
use syno_plex_change_monitor.Normalize.{dot, components, split_root, or_dot, normpath, isabs}
use syno_plex_change_monitor.Normalize.Canonical.{
  IsCanonical, components_stack, components_stack-IsCanonical, components-eq-reverse, foldl-reverse,
}

-- The three roots, and what follows each: anything that begins with no slash.
abbrev pub IsRoot : Text → Type 0
IsRoot root = (root ≡ []) ⊎ ((root ≡ codes "/") ⊎ (root ≡ codes "//"))

pub split_root-IsRoot : (path : Text) → IsRoot (split_root path).0
unfolding split_root
split_root-IsRoot [] = inl refl
split_root-IsRoot (a ∷ []) = ground arith
split_root-IsRoot (a ∷ b ∷ []) = ground arith
split_root-IsRoot (a ∷ b ∷ c ∷ s) = ground arith

pub isabs-split_root : (path : Text) → isabs path ≡ not ((split_root path).0 == [])
unfolding split_root isabs list_eq nat_eq
isabs-split_root [] = refl
isabs-split_root (a ∷ []) = ground arith
isabs-split_root (a ∷ b ∷ []) = ground arith
isabs-split_root (a ∷ b ∷ c ∷ s) = ground arith

split_root_relative : (t : Text) → isabs t ≡ false → split_root t ≡ ([], t)
unfolding split_root isabs
split_root_relative [] h = refl
split_root_relative (a ∷ []) h = ground arith
split_root_relative (a ∷ b ∷ []) h = ground arith
split_root_relative (a ∷ b ∷ c ∷ s) h = ground arith

split_root_one : (t : Text) → isabs t ≡ false → split_root (slash ∷ t) ≡ (codes "/", t)
unfolding split_root isabs
split_root_one [] h = ground arith
split_root_one (a ∷ []) h = ground arith
split_root_one (a ∷ b ∷ s) h = ground arith

split_root_two : (t : Text) → isabs t ≡ false → split_root (slash ∷ slash ∷ t) ≡ (codes "//", t)
unfolding split_root isabs
split_root_two [] h = ground arith
split_root_two (a ∷ s) h = ground arith

split_root-append :
    (root t : Text) → IsRoot root → isabs t ≡ false → split_root (root ++ t) ≡ (root, t)
split_root-append root t (inl e) h = rw e (split_root_relative t h)
split_root-append root t (inr (inl e)) h = rw e (split_root_one t h)
split_root-append root t (inr (inr e)) h = rw e (split_root_two t h)

-- Components in the path's order.
abbrev IsPart : Text → Type 0
IsPart part = (part ≢ []) × Lacks slash part

parts_of_canonical :
    (rooted : Bool) (comps : List Text) → IsCanonical rooted comps → All IsPart (reverse comps)
parts_of_canonical rooted [] h = tt
parts_of_canonical rooted (c ∷ cs) (h, hs) = rw reverse-cons (
    All-append IsPart (reverse cs) (c ∷ []) (parts_of_canonical rooted cs hs)
      ((h.nonempty, h.no_slash), tt))

isabs-join : (parts : List Text) → All IsPart parts → isabs (join slash parts) ≡ false
unfolding join isabs
isabs-join [] h = refl
isabs-join ([] ∷ ps) ((h, _), _) = absurd (h refl)
isabs-join ((c ∷ p) ∷ []) ((_, h), _) = ground arith
isabs-join ((c ∷ p) ∷ q ∷ ps) ((_, h), _) = ground arith

Lacks-of_parts : (parts : List Text) → All IsPart parts → All (Lacks slash) parts
Lacks-of_parts [] h = tt
Lacks-of_parts (p ∷ ps) ((_, h), hs) = (h, Lacks-of_parts ps hs)

components_nil : (rooted : Bool) → components rooted [] ≡ []
unfolding components
components_nil rooted = refl

components_stack-join :
    (rooted : Bool) (parts : List Text)
    → All IsPart parts
    → parts ≢ []
    → split slash (join slash parts) ≡ parts
components_stack-join rooted parts h k = split-join slash parts k (Lacks-of_parts parts h)

-- Splitting what `normpath` joined gives the same components.
components-join :
    (rooted : Bool) (rest : Text)
    → components rooted (join slash (components rooted rest)) ≡ components rooted rest
components-join rooted rest = go (components rooted rest) refl
  where
    stack : List Text
    stack = components_stack rooted rest

    canonical : IsCanonical rooted stack
    canonical = components_stack-IsCanonical rooted rest

    go :
        (parts : List Text)
        → components rooted rest ≡ parts
        → components rooted (join slash parts) ≡ parts
    go [] e = unfold join in components_nil rooted
    go (p ∷ ps) e =
        let r : reverse stack ≡ p ∷ ps = cc (components-eq-reverse rooted rest) in
        let s : split slash (join slash (reverse stack)) ≡ reverse stack =
          components_stack-join rooted (reverse stack) (parts_of_canonical rooted stack canonical)
            (λ z. cc) in
        rw (← r) (
          components-eq-reverse rooted (join slash (reverse stack))
          ∙ ap reverse {x = components_stack rooted (join slash (reverse stack))} {y = stack}
              (rw s (foldl-reverse rooted stack canonical)))

or_dot_fixed : (t : Text) → t ≢ [] → or_dot t ≡ t
unfolding or_dot
or_dot_fixed [] h = absurd (h refl)
or_dot_fixed (c ∷ s) h = refl

-- What `normpath` joins, before an empty result becomes a dot.
abbrev joined : Text → Text
joined path =
    (split_root path).0
    ++ join slash (components (not ((split_root path).0 == [])) (split_root path).1)

normpath-eq-joined : (path : Text) → normpath path ≡ or_dot (joined path)
unfolding normpath
normpath-eq-joined path = refl

parts_of_components : (rooted : Bool) (rest : Text) → All IsPart (components rooted rest)
parts_of_components rooted rest = rw components-eq-reverse (
    parts_of_canonical rooted (components_stack rooted rest)
      (components_stack-IsCanonical rooted rest))

split_root-joined :
    (path : Text)
    → split_root (joined path) ≡ (
      (split_root path).0,
      join slash (components (not ((split_root path).0 == [])) (split_root path).1),
    )
split_root-joined path =
    split_root-append (split_root path).0 _ (split_root-IsRoot path)
      (isabs-join _ (parts_of_components _ (split_root path).1))

joined-joined : (path : Text) → joined (joined path) ≡ joined path
joined-joined path = rw (split_root-joined path) (
    ap (λ (t : List Text). (split_root path).0 ++ join slash t)
      (components-join _ (split_root path).1))

normpath-dot : normpath dot ≡ dot
unfolding normpath
normpath-dot = refl

-- `normpath` changes nothing in a path that it has normalized.
pub normpath-normpath : (path : Text) → normpath (normpath path) ≡ normpath path
normpath-normpath path = elim (list_eq.dec (joined path) []) [
  | yes e ↦ rw (normpath-eq-joined path, e) (unfold or_dot in normpath-dot)
  | no h ↦
      rw
        (
          normpath-eq-joined path,
          or_dot_fixed (joined path) h,
          normpath-eq-joined (joined path),
          joined-joined path,
        )
        (or_dot_fixed (joined path) h)
]

append-eq-nil_left : (xs ys : Text) → xs ++ ys ≡ [] → xs ≡ []
append-eq-nil_left [] ys h = refl
append-eq-nil_left (x ∷ xs) ys h = cc

isabs-dot : isabs (or_dot []) ≡ not (◌==◌ {A = Text} [] [])
unfolding isabs or_dot list_eq nat_eq
isabs-dot = refl

-- `normpath` keeps a path absolute, and makes none absolute.
pub isabs-normpath : (path : Text) → isabs (normpath path) ≡ isabs path
isabs-normpath path = elim (list_eq.dec (joined path) []) [
  | yes e ↦
      rw
        (
          normpath-eq-joined path,
          e,
          isabs-split_root path,
          append-eq-nil_left (split_root path).0 _ e,
        )
        (isabs-dot)
  | no h ↦
      rw
        (
          normpath-eq-joined path,
          or_dot_fixed (joined path) h,
          isabs-split_root (joined path),
          split_root-joined path,
        )
        (sym (isabs-split_root path))
]
