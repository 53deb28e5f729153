-- ===== src/Db/Schemas.antt =====
-- mediascanmonitor/db/schemas.py. The validators are functions from the raw input; `none` stands
-- for their `ValueError`. `lower` is `str.lower`.
pub mod Laws
use syno_plex_change_monitor.Base.{
  ℕ, Bool, true, false, not, ◌&&◌, Option, none, some, List, [], ◌∷◌, ◌++◌, if◌then◌else◌, ◌==◌,
  nat_eq, list_eq, contains,
}
use syno_plex_change_monitor.Base.Text.{Text}
use syno_plex_change_monitor.Models.{ServerType, ScanMode, DebounceMode, WebhookPreset, FsEventType}
use syno_plex_change_monitor.Normalize.{normalize_path, normalize_extension, isabs}

pub record ServerCreate : Type 0 where
  pub name : Text
  pub type : ServerType
  pub base_url : Text
  pub verify_tls : Bool
  pub timeout_seconds : ℕ
  pub secret : Option Text
  pub scan_mode : ScanMode
  pub debounce_mode : DebounceMode
  pub debounce_window_seconds : ℕ
  pub retry_attempts : ℕ
  pub enabled : Bool
  pub webhook_method : Option Text
  pub webhook_headers_json : Option Text
  pub webhook_body_template : Option Text
  pub webhook_payload_preset : WebhookPreset
  pub event_types : List FsEventType

-- A field of a partial update: left out, or sent with a value, which may be Python's `None`.
pub data Change {ℓ} (A : Type ℓ) : Type ℓ where
  unset : Change A
  sent : Option A → Change A

pub record ServerUpdate : Type 0 where
  pub name : Change Text
  pub type : Change ServerType
  pub base_url : Change Text
  pub verify_tls : Change Bool
  pub timeout_seconds : Change ℕ
  pub secret : Change Text
  pub scan_mode : Change ScanMode
  pub debounce_mode : Change DebounceMode
  pub debounce_window_seconds : Change ℕ
  pub retry_attempts : Change ℕ
  pub enabled : Change Bool
  pub webhook_method : Change Text
  pub webhook_headers_json : Change Text
  pub webhook_body_template : Change Text
  pub webhook_payload_preset : Change WebhookPreset
  pub event_types : Change (List FsEventType)

pub record FolderCreate : Type 0 where
  pub path : Text
  pub library_id : Option Text
  pub library_name : Option Text
  pub extensions : List Text
  pub enabled : Bool

pub record FolderUpdate : Type 0 where
  pub path : Change Text
  pub library_id : Change Text
  pub extensions : Change (List Text)
  pub enabled : Change Bool

unfoldable pub validate_path : Text → Option Text
unfolding normalize_path isabs
validate_path value =
    let normalized = normalize_path value in if isabs normalized then some normalized else none

-- The loop over the extensions, with those kept so far.
unfoldable pub normalize_loop : (Text → Text) → List Text → List Text → List Text
unfolding normalize_extension list_eq nat_eq
normalize_loop lower out [] = out
normalize_loop lower out (ext ∷ value) =
    let norm = normalize_extension lower ext in
    normalize_loop lower
      (if not (norm == []) && not (contains out norm) then out ++ (norm ∷ []) else out) value

unfoldable pub normalize_extensions : (Text → Text) → List Text → List Text
unfolding normalize_loop
normalize_extensions lower value = normalize_loop lower [] value

abbrev with_path : (Text → Text) → FolderCreate → Option Text → Option FolderCreate
with_path lower raw none = none
with_path lower raw (some path) =
    some (record raw { path = path; extensions = normalize_extensions lower raw.extensions })

-- `FolderCreate(...)`
unfoldable pub validate_folder : (Text → Text) → FolderCreate → Option FolderCreate
unfolding validate_path normalize_extensions
validate_folder lower raw = with_path lower raw (validate_path raw.path)

-- The validators of `FolderUpdate`: only a path that was sent and is not `None` is checked.
abbrev pub validate_path_change : Change Text → Option (Change Text)
validate_path_change (sent (some value)) = elim (validate_path value) [
  | none ↦ none
  | some path ↦ some (sent (some path))
]
validate_path_change change = some change

abbrev pub validate_extensions_change : (Text → Text) → Change (List Text) → Change (List Text)
validate_extensions_change lower (sent (some value)) =
    sent (some (normalize_extensions lower value))
validate_extensions_change lower change = change

unfoldable pub validate_folder_update : (Text → Text) → FolderUpdate → Option FolderUpdate
unfolding validate_path normalize_extensions
validate_folder_update lower raw = elim (validate_path_change raw.path) [
  | none ↦ none
  | some path ↦
      some
        (record raw { path = path; extensions = validate_extensions_change lower raw.extensions })
]
