-- ===== src/Base/Text.antt =====
-- Python's `str` as the list of its code points, and the methods of `str` that the program calls.
use Prim.Native.Char.{code}
use Prim.Native.String.{String}
use Prim.Native.Nat.{ℕ, zero, suc, ◌+◌, ◌/◌, ◌%◌}
use mathlib.Core.Path.{sym, ap, ◌≡◌, refl}
use mathlib.Core.Logic.{◌≢◌}
use mathlib.Core.Bool.{Bool, true, false, ◌&&◌, ◌||◌}
use mathlib.Core.List.{append_assoc, List, [], ◌∷◌, ◌++◌}
use native.Mathlib.Omega.{arith}
use syno_plex_change_monitor.Base.Equality.{nat_eq, list_eq, ◌==◌, contains, if◌then◌else◌, leb}
use syno_plex_change_monitor.Base.Lists.{contains-append, All}

abbrev pub Text : Type 0
Text = List ℕ

-- The code points of a literal.
abbrev pub codes : String → Text
codes String.[] = []
codes (String.◌∷◌ c s) = code c ∷ codes s

abbrev pub slash : ℕ
slash = b'/'

-- `str.isspace` of one code point, which is what `strip()` removes.
unfoldable pub is_space : ℕ → Bool
is_space c =
    (leb 9 c && leb c 13)
    || (leb 28 c && leb c 32)
    || c == 133
    || c == 160
    || c == 5760
    || (leb 8192 c && leb c 8202)
    || c == 8232
    || c == 8233
    || c == 8239
    || c == 8287
    || c == 12288

-- `s.lstrip`, `s.rstrip` and `s.strip`, by a test on code points.
unfoldable pub lstrip : (ℕ → Bool) → Text → Text
lstrip p [] = []
lstrip p (c ∷ s) = let rest = lstrip p s in if p c then rest else c ∷ s

unfoldable pub rstrip : (ℕ → Bool) → Text → Text
rstrip p [] = []
rstrip p (c ∷ s) =
    let rest = rstrip p s in elim rest [ [] ↦ if p c then [] else c ∷ [] | r ∷ rs ↦ c ∷ r ∷ rs ]

unfoldable pub strip : (ℕ → Bool) → Text → Text
unfolding lstrip rstrip
strip p s = rstrip p (lstrip p s)

-- `s.startswith(prefix)`
unfoldable pub starts_with : Text → Text → Bool
starts_with s [] = true
starts_with [] (c ∷ prefix) = false
starts_with (d ∷ s) (c ∷ prefix) = d == c && starts_with s prefix

-- `s.endswith(c)` for one code point.
unfoldable pub ends_with : Text → ℕ → Bool
ends_with [] c = false
ends_with (d ∷ []) c = d == c
ends_with (d ∷ e ∷ s) c = ends_with (e ∷ s) c

abbrev pub extend_head : ℕ → List Text → List Text
extend_head c [] = (c ∷ []) ∷ []
extend_head c (part ∷ parts) = (c ∷ part) ∷ parts

-- `s.split(c)` for one code point; never the empty list.
unfoldable pub split : ℕ → Text → List Text
split sep [] = [] ∷ []
split sep (c ∷ s) = let rest = split sep s in if c == sep then [] ∷ rest else extend_head c rest

-- `c.join(parts)`
unfoldable pub join : ℕ → List Text → Text
join sep [] = []
join sep (part ∷ []) = part
join sep (part ∷ next ∷ parts) = part ++ sep ∷ join sep (next ∷ parts)

-- `str(n)` of a natural number; the fuel is at least the number of digits.
digits_of : ℕ → ℕ → Text → Text
digits_of zero n acc = acc
digits_of (suc f) n acc =
    let rest = digits_of f (n / 10) ((48 + n % 10) ∷ acc) in if n == 0 then acc else rest

unfoldable pub decimal : ℕ → Text
unfolding digits_of nat_eq
decimal n = if n == 0 then codes "0" else digits_of n n []

pub split-ne-nil : (sep : ℕ) (s : Text) → split sep s ≢ []
unfolding split
split-ne-nil sep [] h = cc
split-ne-nil sep (c ∷ s) h = ground arith

join-extend_head :
    (sep c : ℕ) (parts : List Text)
    → parts ≢ []
    → join sep (extend_head c parts) ≡ c ∷ join sep parts
unfolding join
join-extend_head sep c [] h = absurd (h refl)
join-extend_head sep c (p ∷ []) h = refl
join-extend_head sep c (p ∷ q ∷ ps) h = refl

join-nil_cons :
    (sep : ℕ) (parts : List Text) → parts ≢ [] → join sep ([] ∷ parts) ≡ sep ∷ join sep parts
unfolding join
join-nil_cons sep [] h = absurd (h refl)
join-nil_cons sep (p ∷ ps) h = refl

-- Joining undoes splitting.
pub join-split : (sep : ℕ) (s : Text) → join sep (split sep s) ≡ s
unfolding split
join-split sep [] = unfold join in refl
join-split sep (c ∷ s) = elim (nat_eq.dec c sep) [
  | yes p ↦ ground (arith, join-nil_cons sep (split sep s) (split-ne-nil sep s), join-split sep s)
  | no p ↦
      ground (arith, join-extend_head sep c (split sep s) (split-ne-nil sep s), join-split sep s)
]

abbrev pub Lacks : ℕ → Text → Type 0
Lacks sep s = contains s sep ≡ false

split_of_Lacks : (sep : ℕ) (s : Text) → Lacks sep s → split sep s ≡ s ∷ []
unfolding split
split_of_Lacks sep [] h = refl
split_of_Lacks sep (c ∷ s) h = ground (arith, split_of_Lacks sep s)

-- Splitting at a separator, on both sides of any one of its occurrences.
pub split-append : (sep : ℕ) (a b : Text) → split sep (a ++ sep ∷ b) ≡ split sep a ++ split sep b
unfolding split
split-append sep [] b = ground arith
split-append sep (c ∷ a) b = elim (nat_eq.dec c sep) [
  | yes p ↦ ground (arith, split-append sep a b)
  | no p ↦ rw (split-append sep a b) (ground (arith, split-ne-nil sep a))
]

-- Splitting undoes joining, where there is a part and no part holds the separator.
pub split-join :
    (sep : ℕ) (parts : List Text)
    → parts ≢ []
    → All (Lacks sep) parts
    → split sep (join sep parts) ≡ parts
unfolding join
split-join sep [] h k = absurd (h refl)
split-join sep (p ∷ []) h (k, _) = split_of_Lacks sep p k
split-join sep (p ∷ q ∷ ps) h (k, ks) =
    rw (split-append, split_of_Lacks sep p k, split-join sep (q ∷ ps) (λ e. cc) ks) refl

Lacks-extend_head :
    (sep c : ℕ) (parts : List Text)
    → c ≢ sep
    → All (Lacks sep) parts
    → All (Lacks sep) (extend_head c parts)
Lacks-extend_head sep c [] h k = (ground arith, tt)
Lacks-extend_head sep c (p ∷ ps) h (k, ks) = (ground arith, ks)

pub split-Lacks : (sep : ℕ) (s : Text) → All (Lacks sep) (split sep s)
unfolding split
split-Lacks sep [] = (refl, tt)
split-Lacks sep (c ∷ s) = elim (nat_eq.dec c sep) [
  | yes p ↦ ground (arith, split-Lacks sep s)
  | no p ↦ ground (arith, Lacks-extend_head sep c (split sep s) p (split-Lacks sep s))
]

pub starts_with-append : (p s : Text) → starts_with (p ++ s) p ≡ true
unfolding starts_with
starts_with-append [] s = refl
starts_with-append (c ∷ p) s = ground (arith, starts_with-append p s)

-- What is left of a text after a prefix that it starts with.
pub starts_with_split : (s p : Text) → starts_with s p ≡ true → (rest : Text) × (s ≡ p ++ rest)
unfolding starts_with
starts_with_split s [] h = (s, refl)
starts_with_split [] (c ∷ p) h = absurd (ground arith)
starts_with_split (d ∷ s) (c ∷ p) h =
    let (rest, e) = starts_with_split s p (ground arith) in (rest, ground arith)

-- `s.rsplit(c, 1)[-1]`: what follows the last separator, or the whole text.
unfoldable pub after_last : ℕ → Text → Text
after_last sep [] = []
after_last sep (c ∷ s) =
    let rest = after_last sep s in if contains s sep then rest else if c == sep then s else c ∷ s

-- `s.rpartition(c)`: what precedes the last separator, whether there is one, and what follows.
unfoldable pub rpartition : ℕ → Text → Text × Bool × Text
rpartition sep [] = ([], false, [])
rpartition sep (c ∷ s) =
    let rest = rpartition sep s in
    if rest.1
    then (c ∷ rest.0, true, rest.2)
    else if c == sep
    then ([], true, s)
    else ([], false, c ∷ s)

after_last_of_Lacks : (sep : ℕ) (t : Text) → Lacks sep t → after_last sep t ≡ t
unfolding after_last
after_last_of_Lacks sep [] h = refl
after_last_of_Lacks sep (c ∷ t) h = ground arith

contains_middle : (a b : Text) (c : ℕ) → contains (a ++ c ∷ b) c ≡ true
contains_middle [] b c = ground arith
contains_middle (d ∷ a) b c = ground (arith, contains_middle a b c)

pub after_last-append : (sep : ℕ) (a t : Text) → Lacks sep t → after_last sep (a ++ sep ∷ t) ≡ t
unfolding after_last
after_last-append sep [] t h = ground arith
after_last-append sep (c ∷ a) t h =
    ground (arith, contains_middle a t sep, after_last-append sep a t)

pub rpartition_of_Lacks : (sep : ℕ) (t : Text) → Lacks sep t → rpartition sep t ≡ ([], false, t)
unfolding rpartition
rpartition_of_Lacks sep [] h = refl
rpartition_of_Lacks sep (c ∷ t) h = ground (arith, rpartition_of_Lacks sep t)

pub rpartition-append :
    (sep : ℕ) (a t : Text) → Lacks sep t → rpartition sep (a ++ sep ∷ t) ≡ (a, true, t)
unfolding rpartition
rpartition-append sep [] t h = ground (arith, rpartition_of_Lacks sep t)
rpartition-append sep (c ∷ a) t h = ground (arith, rpartition-append sep a t)

pub Lacks-append : (sep : ℕ) (a b : Text) → Lacks sep a → Lacks sep b → Lacks sep (a ++ b)
Lacks-append sep a b h k = rw (contains-append a b sep) (ground arith)

pub join-append :
    (sep : ℕ) (xs ys : List Text)
    → xs ≢ []
    → ys ≢ []
    → join sep (xs ++ ys) ≡ join sep xs ++ sep ∷ join sep ys
unfolding join
join-append sep [] ys h k = absurd (h refl)
join-append sep (x ∷ []) [] h k = absurd (k refl)
join-append sep (x ∷ []) (y ∷ ys) h k = refl
join-append sep (x ∷ z ∷ xs) ys h k =
    rw (join-append sep (z ∷ xs) ys (λ e. cc) k)
      (ap (λ (t : Text). t) (sym (append_assoc x (sep ∷ join sep (z ∷ xs)) (sep ∷ join sep ys))))

pub rstrip_fixed : (s : Text) (c : ℕ) → ends_with s c ≡ false → rstrip (λ d. d == c) s ≡ s
unfolding rstrip ends_with
rstrip_fixed [] c h = refl
rstrip_fixed (d ∷ []) c h = ground arith
rstrip_fixed (d ∷ e ∷ s) c h = rw (rstrip_fixed (e ∷ s) c h) refl
