-- ===== src/Models.antt =====
-- mediascanmonitor/db/models.py: the enums, the comma-separated event types, and the rows of the
-- four tables. A float is a number of thousandths.
pub mod EventTypes
use syno_plex_change_monitor.Base.{ℕ, Bool, Option, List, Eq}
use syno_plex_change_monitor.Base.Text.{Text, codes}

pub data ServerType : Type 0 where
  webhook plex emby jellyfin audiobookshelf : ServerType

pub data ScanMode : Type 0 where
  targeted library : ScanMode

pub data DebounceMode : Type 0 where
  off trailing : DebounceMode

pub data WebhookPreset : Type 0 where
  custom sonarr_radarr : WebhookPreset

pub data FsEventType : Type 0 where
  created moved_to deleted moved_from : FsEventType

server_type_dec : Discrete ServerType
server_type_dec = hlevel

instance unfoldable pub server_type_eq : Eq ServerType
unfolding server_type_dec
server_type_eq = record { dec = server_type_dec }

event_type_dec : Discrete FsEventType
event_type_dec = hlevel

instance unfoldable pub event_type_eq : Eq FsEventType
unfolding event_type_dec
event_type_eq = record { dec = event_type_dec }

-- `t.value` of an `FsEventType`.
abbrev pub event_value : FsEventType → Text
event_value created = codes "created"
event_value moved_to = codes "moved_to"
event_value deleted = codes "deleted"
event_value moved_from = codes "moved_from"

-- `s.value` of a `ScanMode`.
abbrev pub scan_mode_value : ScanMode → Text
scan_mode_value targeted = codes "targeted"
scan_mode_value library = codes "library"

-- `t.value` of a `ServerType`.
abbrev pub server_type_value : ServerType → Text
server_type_value webhook = codes "webhook"
server_type_value plex = codes "plex"
server_type_value emby = codes "emby"
server_type_value jellyfin = codes "jellyfin"
server_type_value audiobookshelf = codes "audiobookshelf"

pub record Server : Type 0 where
  pub id : ℕ
  pub name : Text
  pub type : ServerType
  pub base_url : Text
  pub verify_tls : Bool
  pub timeout_seconds : ℕ
  pub secret_encrypted : Option Text
  pub scan_mode : ScanMode
  pub debounce_mode : DebounceMode
  pub debounce_window_seconds : ℕ
  pub retry_attempts : ℕ
  pub enabled : Bool
  pub webhook_method : Option Text
  pub webhook_headers_json : Option Text
  pub webhook_body_template : Option Text
  pub webhook_payload_preset : WebhookPreset
  pub event_types : Text

pub record Folder : Type 0 where
  pub id : ℕ
  pub server_id : ℕ
  pub path : Text
  pub library_id : Option Text
  pub library_name : Option Text
  pub enabled : Bool

pub record FileType : Type 0 where
  pub id : ℕ
  pub folder_id : ℕ
  pub extension : Text
