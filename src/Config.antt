-- ===== src/Config.antt =====
-- mediascanmonitor/config/runtime.py and defaults.py: the snapshot that the pipeline reads.
pub mod Build
use syno_plex_change_monitor.Base.{ℕ, Bool, Option, List, [], ◌∷◌}
use syno_plex_change_monitor.Base.Dict.{Dict}
use syno_plex_change_monitor.Base.Text.{Text, codes}
use syno_plex_change_monitor.Models.{
  ServerType, webhook, plex, emby, jellyfin, audiobookshelf, ScanMode, DebounceMode, off, trailing,
  WebhookPreset, FsEventType,
}

pub record ServerRuntime : Type 0 where
  pub server_id : ℕ
  pub name : Text
  pub type : ServerType
  pub base_url : Text
  pub verify_tls : Bool
  pub timeout_seconds : ℕ
  pub secret : Option Text
  pub scan_mode : ScanMode
  pub debounce_mode : DebounceMode
  pub debounce_window_seconds : ℕ
  pub retry_attempts : ℕ
  pub webhook_method : Option Text
  pub webhook_headers_json : Option Text
  pub webhook_body_template : Option Text
  pub webhook_payload_preset : WebhookPreset

pub record FolderRoute : Type 0 where
  pub server_id : ℕ
  pub server_name : Text
  pub path : Text
  pub extensions : List Text
  pub library_id : Option Text
  pub scan_mode : ScanMode
  pub event_types : List FsEventType

pub record RuntimeConfig : Type 0 where
  pub watch_paths : List Text
  pub routes : List FolderRoute
  pub servers : Dict ℕ ServerRuntime
  pub ignore_dirs : List Text

-- `IGNORE_DIRS`
abbrev pub ignored_dir_names : List Text
ignored_dir_names = codes "@eaDir" ∷ codes "#snapshot" ∷ codes "#recycle" ∷ codes "@tmp" ∷ []

-- `DEFAULT_DEBOUNCE_BY_TYPE`
unfoldable pub default_debounce : ServerType → DebounceMode
default_debounce webhook = off
default_debounce plex = trailing
default_debounce emby = trailing
default_debounce jellyfin = trailing
default_debounce audiobookshelf = trailing
