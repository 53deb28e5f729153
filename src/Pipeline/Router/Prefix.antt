-- ===== src/Pipeline/Router/Prefix.antt =====
-- `_is_path_prefix` compares whole segments.
use syno_plex_change_monitor.Base.{
  ◌≡◌, sym, ap, ◌∙◌, ◌≢◌, ◌↔◌, true, false, List, [], ◌∷◌, ◌++◌, arith, list_eq, nat_eq,
}
use mathlib.Core.List.{append_assoc, append-nil}
use syno_plex_change_monitor.Base.Text.{
  Text, slash, split, join, join-split, split-append, split-ne-nil, join-append, starts_with,
  starts_with-append, starts_with_split, ends_with,
}
use syno_plex_change_monitor.Pipeline.Router.{is_path_prefix}

pub is_path_prefix_self : (path : Text) → is_path_prefix path path ≡ true
unfolding is_path_prefix
is_path_prefix_self path = ground arith

pub is_path_prefix-append :
    (prefix rest : Text)
    → ends_with prefix slash ≡ false
    → is_path_prefix prefix (prefix ++ slash ∷ rest) ≡ true
unfolding is_path_prefix
is_path_prefix-append prefix rest h =
    let e : starts_with (prefix ++ slash ∷ rest) (prefix ++ slash ∷ []) ≡ true =
      rw (← append_assoc prefix (slash ∷ []) rest)
        (starts_with-append (prefix ++ slash ∷ []) rest) in
    ground arith

-- A matching path is the prefix, or goes on with a slash.
pub is_path_prefix_split :
    (prefix path : Text)
    → ends_with prefix slash ≡ false
    → is_path_prefix prefix path ≡ true
    → path ≢ prefix
    → (rest : Text) × (path ≡ prefix ++ slash ∷ rest)
unfolding is_path_prefix
is_path_prefix_split prefix path h k n =
    let (rest, e) = starts_with_split path (prefix ++ slash ∷ []) (ground arith) in
    (rest, e ∙ append_assoc prefix (slash ∷ []) rest)

segments_of_rest :
    (prefix path : Text) (rest : List Text)
    → ends_with prefix slash ≡ false
    → split slash path ≡ split slash prefix ++ rest
    → is_path_prefix prefix path ≡ true
segments_of_rest prefix path [] h e =
    let same : path ≡ prefix =
      sym (join-split slash path)
      ∙ ap (join slash) (e ∙ append-nil (split slash prefix))
      ∙ join-split slash prefix in
    rw same (is_path_prefix_self prefix)
segments_of_rest prefix path (r ∷ rs) h e =
    let longer : path ≡ prefix ++ slash ∷ join slash (r ∷ rs) =
      sym (join-split slash path)
      ∙ ap (join slash) e
      ∙ join-append slash (split slash prefix) (r ∷ rs) (split-ne-nil slash prefix) (λ z. cc)
      ∙ ap (λ (t : Text). t ++ slash ∷ join slash (r ∷ rs)) (join-split slash prefix) in
    rw longer (is_path_prefix-append prefix (join slash (r ∷ rs)) h)

-- For a prefix that does not end in a slash: the prefix test passes exactly if the segments of the
-- path are those of the prefix, followed by any others.
pub is_path_prefix_segments :
    (prefix path : Text)
    → ends_with prefix slash ≡ false
    → (is_path_prefix prefix path ≡ true)
      ↔ ((rest : List Text) × (split slash path ≡ split slash prefix ++ rest))
is_path_prefix_segments prefix path h =
    (forward, λ (rest, e). segments_of_rest prefix path rest h e)
  where
    forward :
        is_path_prefix prefix path ≡ true
        → (rest : List Text) × (split slash path ≡ split slash prefix ++ rest)
    forward k = elim (list_eq.dec path prefix) [
      | yes e ↦ ([], rw e (sym (append-nil (split slash prefix))))
      | no n ↦
          let (rest, e) = is_path_prefix_split prefix path h k n in
          (split slash rest, ap (split slash) e ∙ split-append slash prefix rest)
    ]
