-- ===== src/Pipeline/Router/ScanPath.antt =====
-- The folder that a targeted scan asks for.
use mathlib.Core.Path.{subst}
use syno_plex_change_monitor.Base.{
  ℕ, ◌≡◌, refl, sym, ap, ◌∙◌, ◌≢◌, true, false, none, some, List, [], ◌∷◌, ◌++◌, arith, list_eq,
  nat_eq,
}
use mathlib.Core.List.{append_assoc}
use syno_plex_change_monitor.Base.Lists.{length, drop}
use syno_plex_change_monitor.Base.Text.{
  split-append, rstrip, split-Lacks, join, join-split, split-ne-nil, split-join, Text, slash, split,
  Lacks, lstrip, rstrip_fixed, ends_with, starts_with,
}
use syno_plex_change_monitor.Pipeline.Router.{
  is_path_prefix, is_slash, scan_path_of, compute_scan_path,
}
use syno_plex_change_monitor.Pipeline.Router.Prefix.{is_path_prefix_self, is_path_prefix-append}

drop-length : (a b : Text) → drop (length a) (a ++ b) ≡ b
drop-length [] b = refl
drop-length (c ∷ a) b = drop-length a b

lstrip_fixed : (t : Text) → starts_with t (slash ∷ []) ≡ false → lstrip is_slash t ≡ t
unfolding lstrip starts_with
lstrip_fixed [] h = refl
lstrip_fixed (c ∷ t) h = ground arith

ends_with_of_Lacks : (t : Text) (c : ℕ) → Lacks c t → ends_with t c ≡ false
unfolding ends_with
ends_with_of_Lacks [] c h = refl
ends_with_of_Lacks (d ∷ []) c h = ground arith
ends_with_of_Lacks (d ∷ e ∷ t) c h = ends_with_of_Lacks (e ∷ t) c (ground arith)

ends_with-append : (a t : Text) (c d : ℕ) → ends_with (a ++ d ∷ t) c ≡ ends_with (d ∷ t) c
unfolding ends_with
ends_with-append [] t c d = refl
ends_with-append (e ∷ []) t c d = refl
ends_with-append (e ∷ f ∷ a) t c d = ends_with-append (f ∷ a) t c d

-- A relative path whose file lies in a folder, and one that is a file name.
data Relative : Text → Type 0 where
  in_folder : (top rest : Text) → top ≢ [] → Lacks slash top → Relative (top ++ slash ∷ rest)
  direct : (name : Text) → Lacks slash name → Relative name

split_of_Lacks : (t : Text) → Lacks slash t → split slash t ≡ t ∷ []
unfolding join
split_of_Lacks t h = split-join slash (t ∷ []) (λ e. cc) (h, tt)

Relative-of_split :
    (rel : Text) (parts : List Text)
    → starts_with rel (slash ∷ []) ≡ false
    → split slash rel ≡ parts
    → Relative rel
unfolding starts_with
Relative-of_split rel [] h e = absurd (split-ne-nil slash rel e)
Relative-of_split rel (p ∷ []) h e =
    let same : rel ≡ p = sym (join-split slash rel) ∙ ap (join slash) e ∙ (unfold join in refl) in
    direct rel (rw same (rw e at (split-Lacks slash rel)).0)
Relative-of_split rel (p ∷ q ∷ ps) h e =
    let same : rel ≡ p ++ slash ∷ join slash (q ∷ ps) =
      sym (join-split slash rel) ∙ ap (join slash) e ∙ (unfold join in refl) in
    subst Relative (sym same)
      (in_folder p (join slash (q ∷ ps)) (λ z. ground arith) (rw e at (split-Lacks slash rel)).0)

starts_with_of_Lacks : (t : Text) → Lacks slash t → starts_with t (slash ∷ []) ≡ false
unfolding starts_with
starts_with_of_Lacks [] h = refl
starts_with_of_Lacks (c ∷ t) h = ground arith

starts_with_folder :
    (top rest : Text)
    → top ≢ []
    → Lacks slash top
    → starts_with (top ++ slash ∷ rest) (slash ∷ []) ≡ false
unfolding starts_with
starts_with_folder [] rest n h = absurd (n refl)
starts_with_folder (c ∷ top) rest n h = ground arith

scan_path_of_folder :
    (root top : Text) (parts : List Text)
    → parts ≢ []
    → scan_path_of root (top ∷ parts) ≡ (rstrip is_slash root ++ slash ∷ top, some top)
unfolding scan_path_of
scan_path_of_folder root top [] h = absurd (h refl)
scan_path_of_folder root top (p ∷ ps) h = refl

ends_with_folder :
    (a top : Text) → top ≢ [] → Lacks slash top → ends_with (a ++ slash ∷ top) slash ≡ false
unfolding ends_with
ends_with_folder a [] n h = absurd (n refl)
ends_with_folder a (c ∷ top) n h = rw ends_with-append (ends_with_of_Lacks (c ∷ top) slash h)

module _ (root : Text) (bare : ends_with root slash ≡ false) where
  compute_scan_path_relative :
      (rel : Text)
      → starts_with rel (slash ∷ []) ≡ false
      → compute_scan_path root (root ++ slash ∷ rel) ≡ scan_path_of root (split slash rel)
  unfolding compute_scan_path lstrip nat_eq
  compute_scan_path_relative rel h =
      rw drop-length (ap (λ (t : Text). scan_path_of root (split slash t)) (lstrip_fixed rel h))

  -- A file below the root in a folder `top` is scanned through that folder, and a file that lies
  -- in the root itself through the root.
  pub compute_scan_path_lem :
      (top rest name : Text)
      → top ≢ []
      → Lacks slash top
      → Lacks slash name
      → (compute_scan_path root (root ++ slash ∷ (top ++ slash ∷ rest))
          ≡ (root ++ slash ∷ top, some top))
        × (compute_scan_path root (root ++ slash ∷ name) ≡ (root, none))
  compute_scan_path_lem top rest name n h k = (
    in_top,
    unfold scan_path_of in
        rw (compute_scan_path_relative name (starts_with_of_Lacks name k), split_of_Lacks name k)
          refl,
  )
    where
      in_top :
          compute_scan_path root (root ++ slash ∷ (top ++ slash ∷ rest))
          ≡ (root ++ slash ∷ top, some top)
      in_top = rw (
        compute_scan_path_relative (top ++ slash ∷ rest) (starts_with_folder top rest n h),
        split-append slash top rest,
        split_of_Lacks top h,
        scan_path_of_folder root top (split slash rest) (split-ne-nil slash rest),
        rstrip_fixed root slash bare,
      )

  covers :
      (rel : Text)
      → Relative rel
      → let scan = (compute_scan_path root (root ++ slash ∷ rel)).0 in
        (is_path_prefix root scan ≡ true) × (is_path_prefix scan (root ++ slash ∷ rel) ≡ true)
  covers _ (in_folder top rest n h) = rw (compute_scan_path_lem top rest [] n h refl).0 (
    is_path_prefix-append root top bare,
    rw (← append_assoc root (slash ∷ top) (slash ∷ rest))
        (is_path_prefix-append (root ++ slash ∷ top) rest (ends_with_folder root top n h)),
  )
  covers _ (direct name h) =
      rw (compute_scan_path_lem (b'x' ∷ []) [] name (λ e. cc) (unfold nat_eq in refl) h).1
        (is_path_prefix_self root, is_path_prefix-append root name bare)

  -- For a root without a trailing slash and a file below it, with no doubled slash between them:
  -- the scanned folder lies in the root, and the file lies in the scanned folder.
  pub compute_scan_path_covers :
      (rel : Text)
      → starts_with rel (slash ∷ []) ≡ false
      → let scan = (compute_scan_path root (root ++ slash ∷ rel)).0 in
        (is_path_prefix root scan ≡ true) × (is_path_prefix scan (root ++ slash ∷ rel) ≡ true)
  compute_scan_path_covers rel h = covers rel (Relative-of_split rel (split slash rel) h refl)
