-- ===== src/Normalize.antt =====
-- mediascanmonitor/normalize.py, with `posixpath.normpath` and `posixpath.isabs` of the standard
-- library written out. The case mapping `str.lower` of Unicode is a parameter.
pub mod Canonical
pub mod Idempotent
pub mod Absolute
use syno_plex_change_monitor.Base.{
  ℕ, Bool, true, false, Option, none, some, List, [], ◌∷◌, ◌++◌, not, ◌&&◌, ◌||◌, ◌==◌, nat_eq,
  list_eq, if◌then◌else◌, contains,
}
use syno_plex_change_monitor.Base.Text.{
  Text, codes, slash, is_space, strip, lstrip, split, join, starts_with,
}
use mathlib.Core.List.{foldl, reverse}

-- Strip blanks, then leading dots, then blanks, and lower the case.
unfoldable pub normalize_extension : (Text → Text) → Text → Text
unfolding strip is_space lstrip nat_eq
normalize_extension lower ext =
    lower (strip is_space (lstrip (λ c. c == b'.') (strip is_space ext)))

-- The leading slashes that `posixpath.splitroot` keeps apart: none, one, or exactly two.
unfoldable pub split_root : Text → Text × Text
unfolding nat_eq
split_root [] = ([], [])
split_root (a ∷ []) = if a == slash then (codes "/", []) else ([], a ∷ [])
split_root (a ∷ b ∷ []) =
    if a == slash
    then if b == slash then (codes "//", []) else (codes "/", b ∷ [])
    else ([], a ∷ b ∷ [])
split_root (a ∷ b ∷ c ∷ s) =
    if a == slash
    then if b == slash && not (c == slash) then (codes "//", c ∷ s) else (codes "/", b ∷ c ∷ s)
    else ([], a ∷ b ∷ c ∷ s)

abbrev pub dot : Text
dot = codes "."

abbrev pub dotdot : Text
dotdot = codes ".."

-- Whether `..` is kept on the components seen so far, the last one first.
unfoldable pub keeps_parent : Bool → List Text → Bool
unfolding list_eq nat_eq
keeps_parent rooted [] = not rooted
keeps_parent rooted (last ∷ _) = last == dotdot

abbrev pub pop : List Text → List Text
pop [] = []
pop (_ ∷ comps) = comps

-- One round of the loop of `posixpath.normpath`.
unfoldable pub normpath_step : Bool → List Text → Text → List Text
unfolding keeps_parent list_eq nat_eq
normpath_step rooted comps comp =
    if comp == [] || comp == dot
    then comps
    else if not (comp == dotdot) || keeps_parent rooted comps
    then comp ∷ comps
    else pop comps

-- The components that are left, in the path's order.
unfoldable pub components : Bool → Text → List Text
unfolding normpath_step split
components rooted rest = reverse (foldl (normpath_step rooted) [] (split slash rest))

unfoldable pub or_dot : Text → Text
or_dot [] = dot
or_dot (c ∷ s) = c ∷ s

unfoldable pub normpath : Text → Text
unfolding split_root components join or_dot list_eq nat_eq
normpath path =
    let (root, rest) = split_root path in
    or_dot (root ++ join slash (components (not (root == [])) rest))

unfoldable pub isabs : Text → Bool
unfolding starts_with
isabs path = starts_with path (slash ∷ [])

unfoldable pub normalize_path : Text → Text
unfolding normpath strip is_space
normalize_path path = normpath (strip is_space path)
