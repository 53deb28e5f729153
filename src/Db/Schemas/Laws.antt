-- ===== src/Db/Schemas/Laws.antt =====
-- What the validators let through.
use syno_plex_change_monitor.Base.{
  ◌≡◌, ◌≢◌, refl, sym, ◌∙◌, true, false, not, ◌&&◌, none, some, List, [], ◌∷◌, ◌++◌, arith,
  if◌then◌else◌, ◌==◌, ◌⊎◌, inl, inr, Bool-cases, nat_eq, list_eq, contains,
}
use syno_plex_change_monitor.Base.Lists.{All, contains-append}
use syno_plex_change_monitor.Base.Text.{Text, slash, join, strip, is_space}
use syno_plex_change_monitor.Normalize.{normpath, normalize_path, normalize_extension, isabs}
use syno_plex_change_monitor.Normalize.Idempotent.{normpath-normpath, isabs-normpath}
use syno_plex_change_monitor.Normalize.Absolute.{IsEntryName, normpath_absolute}
use syno_plex_change_monitor.Db.Schemas.{
  FolderCreate, validate_path, normalize_loop, normalize_extensions, validate_folder,
}

-- No text occurs twice, and none is empty.
abbrev pub IsExtensionSet : List Text → Type 0
IsExtensionSet [] = Unit
IsExtensionSet (ext ∷ exts) = (ext ≢ []) × (contains exts ext ≡ false) × IsExtensionSet exts

IsExtensionSet-append :
    (out : List Text) (norm : Text)
    → IsExtensionSet out
    → norm ≢ []
    → contains out norm ≡ false
    → IsExtensionSet (out ++ (norm ∷ []))
IsExtensionSet-append [] norm h n c = (n, refl, tt)
IsExtensionSet-append (e ∷ out) norm (ne, fresh, h) n c = (
  ne,
  ground (arith, contains-append out (norm ∷ []) e),
  IsExtensionSet-append out norm h n (ground arith),
)

normalize_loop-IsExtensionSet :
    (lower : Text → Text) (value out : List Text)
    → IsExtensionSet out
    → IsExtensionSet (normalize_loop lower out value)
unfolding normalize_loop
normalize_loop-IsExtensionSet lower [] out h = h
normalize_loop-IsExtensionSet lower (ext ∷ value) out h =
    normalize_loop-IsExtensionSet lower value _ (next (normalize_extension lower ext))
  where
    next :
        (norm : Text)
        → IsExtensionSet
            (if not (norm == []) && not (contains out norm) then out ++ (norm ∷ []) else out)
    next norm = elim (list_eq.dec norm []) [
      | yes e ↦ ground arith
      | no n ↦ elim (Bool-cases (contains out norm)) [
        | inl c ↦ ground arith
        | inr c ↦ ground (arith, IsExtensionSet-append out norm h n c)
      ]
    ]

-- An absolute path in normal form: one or two slashes, and entry names joined by slashes.
abbrev pub IsNormalAbsolute : Text → Type 0
IsNormalAbsolute path =
    (isabs path ≡ true)
    × (normpath path ≡ path)
    × ((parts : List Text) × ((path ≡ slash ∷ join slash parts)
          ⊎ (path ≡ slash ∷ slash ∷ join slash parts))
        × All IsEntryName parts)

pub normpath-IsNormalAbsolute :
    (path : Text) → isabs (normpath path) ≡ true → IsNormalAbsolute (normpath path)
normpath-IsNormalAbsolute path h =
    (h, normpath-normpath path, normpath_absolute path (sym (isabs-normpath path) ∙ h))

-- A folder is refused exactly if its normalized path is not absolute. One that is accepted has
-- that path, in normal form, and extensions of which none is empty or repeated.
pub validate_folder_lem :
    (lower : Text → Text) (raw : FolderCreate)
    → (isabs (normalize_path raw.path) ≡ false → validate_folder lower raw ≡ none)
      × (isabs (normalize_path raw.path) ≡ true
          → (folder : FolderCreate) × (validate_folder lower raw ≡ some folder)
            × (folder.path ≡ normalize_path raw.path)
            × IsNormalAbsolute folder.path
            × IsExtensionSet folder.extensions)
unfolding validate_folder validate_path
validate_folder_lem lower raw = (
  λ h. rw h refl,
  λ h. (
    record raw {
      path = normalize_path raw.path;
      extensions = normalize_extensions lower raw.extensions;
    },
    rw h refl,
    refl,
    normpath-IsNormalAbsolute (strip is_space raw.path) h,
    unfold normalize_extensions in normalize_loop-IsExtensionSet lower raw.extensions [] tt,
  ),
)
