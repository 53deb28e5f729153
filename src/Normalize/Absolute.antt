-- ===== src/Normalize/Absolute.antt =====
-- The parts of an absolute path after `normpath`.
use mathlib.Core.List.{reverse, reverse-cons}
use syno_plex_change_monitor.Base.{
  ◌≡◌, refl, ◌≢◌, ◌⊎◌, inl, inr, true, not, List, [], ◌∷◌, arith, ◌==◌, nat_eq, list_eq,
}
use syno_plex_change_monitor.Base.Lists.{All, All-append}
use syno_plex_change_monitor.Base.Text.{Text, slash, join, Lacks}
use syno_plex_change_monitor.Normalize.{
  dot, dotdot, keeps_parent, components, split_root, or_dot, normpath, isabs,
}
use syno_plex_change_monitor.Normalize.Canonical.{
  IsCanonical, components_stack, components_stack-IsCanonical, components-eq-reverse,
}
use syno_plex_change_monitor.Normalize.Idempotent.{isabs-split_root, split_root-IsRoot}

-- A proper name of a directory entry.
abbrev pub IsEntryName : Text → Type 0
IsEntryName part = (part ≢ []) × (part ≢ dot) × (part ≢ dotdot) × Lacks slash part

entry_names_of_canonical : (comps : List Text) → IsCanonical true comps → All IsEntryName comps
unfolding keeps_parent
entry_names_of_canonical [] h = tt
entry_names_of_canonical (c ∷ []) (h, _) =
    ((h.nonempty, h.not_dot, (λ e. cc (h.parent e)), h.no_slash), tt)
entry_names_of_canonical (c ∷ d ∷ cs) (h, hs) =
    let ih = entry_names_of_canonical (d ∷ cs) hs in
    ((h.nonempty, h.not_dot, (λ e. ground (arith, h.parent e, ih.0)), h.no_slash), ih)

All-reverse : (P : Text → Type 0) (xs : List Text) → All P xs → All P (reverse xs)
All-reverse P [] h = tt
All-reverse P (x ∷ xs) (h, hs) =
    rw reverse-cons (All-append P (reverse xs) (x ∷ []) (All-reverse P xs hs) (h, tt))

-- An absolute path becomes one or two slashes and entry names joined by slashes: no `.`, no `..`
-- and no empty name is left in it.
pub normpath_absolute :
    (path : Text)
    → isabs path ≡ true
    → (parts : List Text) × ((normpath path ≡ slash ∷ join slash parts)
        ⊎ (normpath path ≡ slash ∷ slash ∷ join slash parts))
      × All IsEntryName parts
unfolding normpath or_dot
normpath_absolute path h =
    let r : not ((split_root path).0 == []) ≡ true = ground (arith, isabs-split_root path) in
    let stack = components_stack true (split_root path).1 in
    (
      components true (split_root path).1,
      rw r (elim (split_root-IsRoot path) [
        | inl e ↦ absurd (ground arith)
        | inr (inl e) ↦ inl (rw e refl)
        | inr (inr e) ↦ inr (rw e refl)
      ]),
      rw components-eq-reverse (
          All-reverse IsEntryName stack (
            entry_names_of_canonical stack
              (components_stack-IsCanonical true (split_root path).1))),
    )
