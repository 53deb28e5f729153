-- ===== src/Pipeline/Filters/Laws.antt =====
-- What the filters accept, in terms of the segments and the file name of a path.
use syno_plex_change_monitor.Base.{
  ◌&&◌, ◌≡◌, not, ◌||◌, List, [], ◌∷◌, ◌++◌, arith, ◌==◌, nat_eq, list_eq, contains,
}
use syno_plex_change_monitor.Base.Text.{
  Text, slash, Lacks, Lacks-append, after_last-append, rpartition-append, rpartition_of_Lacks,
}
use syno_plex_change_monitor.Pipeline.Filters.{extension_matches}

module _ (lower : Text → Text) (directory : Text) (extensions : List Text) where
  -- A name with an extension matches exactly if its lowered extension is listed, or the list is
  -- empty; a name without one (no dot at all, or only the leading dot of a hidden file) matches
  -- only the empty list.
  pub extension_matches_lem :
      (base ext : Text)
      → Lacks slash base
      → Lacks slash ext
      → Lacks b'.' ext
      → (extension_matches lower (directory ++ slash ∷ (base ++ b'.' ∷ ext)) extensions
          ≡ (extensions == [] || not (base == []) && contains extensions (lower ext)))
        × (extension_matches lower (directory ++ slash ∷ ext) extensions ≡ extensions == [])
  unfolding extension_matches
  extension_matches_lem base ext h k l = (
    rw
        (
          after_last-append slash directory (base ++ b'.' ∷ ext)
              (Lacks-append slash base (b'.' ∷ ext) h (ground arith)),
          rpartition-append b'.' base ext l,
        )
        (ground arith),
    rw (after_last-append slash directory ext k, rpartition_of_Lacks b'.' ext l) (ground arith),
  )
