-- ===== src/Web/ReadModels.antt =====
-- The read models of mediascanmonitor/web/api_schemas.py. `none` stands for the exception of event
-- types that are stored wrongly.
use syno_plex_change_monitor.Base.{
  ℕ, ◌≡◌, refl, Bool, Option, some, List, [], ◌∷◌, map, nat_eq, contains,
}
use syno_plex_change_monitor.Base.Lists.{filter}
use syno_plex_change_monitor.Base.Partial.{◌>>=◌}
use syno_plex_change_monitor.Base.Sort.{sorted, text_leb}
use syno_plex_change_monitor.Base.Text.{Text}
use syno_plex_change_monitor.Models.{
  Server, ServerType, ScanMode, DebounceMode, WebhookPreset, FsEventType, created, moved_to,
  deleted, moved_from, scan_mode_value, event_type_eq,
}
use syno_plex_change_monitor.Models.EventTypes.{parse_event_types}
use syno_plex_change_monitor.Db.Repo.{LoadedFolder}
use syno_plex_change_monitor.Observ.EventsBus.{EventRecord}
use syno_plex_change_monitor.Servers.Registry.{get_adapter_class, supported_scan_modes}
use syno_plex_change_monitor.Web.Writes.{is_stored}

pub record FolderRead : Type 0 where
  pub id : ℕ
  pub server_id : ℕ
  pub path : Text
  pub library_id : Option Text
  pub library_name : Option Text
  pub enabled : Bool
  pub extensions : List Text

-- `FolderRead.from_model`
unfoldable pub folder_read : LoadedFolder → FolderRead
unfolding sorted nat_eq
folder_read folder = record {
  id = folder.row.id;
  server_id = folder.row.server_id;
  path = folder.row.path;
  library_id = folder.row.library_id;
  library_name = folder.row.library_name;
  enabled = folder.row.enabled;
  extensions = sorted text_leb (map (λ ft. ft.extension) folder.filetypes);
}

pub record ServerRead : Type 0 where
  pub id : ℕ
  pub name : Text
  pub type : ServerType
  pub base_url : Text
  pub verify_tls : Bool
  pub timeout_seconds : ℕ
  pub has_secret : Bool
  pub scan_mode : ScanMode
  pub debounce_mode : DebounceMode
  pub debounce_window_seconds : ℕ
  pub retry_attempts : ℕ
  pub enabled : Bool
  pub supported_scan_modes : List ScanMode
  pub webhook_method : Option Text
  pub webhook_headers_json : Option Text
  pub webhook_body_template : Option Text
  pub webhook_payload_preset : WebhookPreset
  pub event_types : List FsEventType
  pub folders : List FolderRead

-- The members of `FsEventType`, in the order of the enum.
abbrev pub fs_event_types : List FsEventType
fs_event_types = created ∷ moved_to ∷ deleted ∷ moved_from ∷ []

-- `ServerRead.from_model`
unfoldable pub server_read : Server → List LoadedFolder → Option ServerRead
unfolding sorted folder_read parse_event_types event_type_eq get_adapter_class supported_scan_modes
    nat_eq
server_read server folders = do
  types ← parse_event_types server.event_types
  some (record {
    id = server.id;
    name = server.name;
    type = server.type;
    base_url = server.base_url;
    verify_tls = server.verify_tls;
    timeout_seconds = server.timeout_seconds;
    has_secret = is_stored server.secret_encrypted;
    scan_mode = server.scan_mode;
    debounce_mode = server.debounce_mode;
    debounce_window_seconds = server.debounce_window_seconds;
    retry_attempts = server.retry_attempts;
    enabled = server.enabled;
    supported_scan_modes =
        sorted (λ a b. text_leb (scan_mode_value a) (scan_mode_value b))
          (supported_scan_modes (get_adapter_class server.type));
    webhook_method = server.webhook_method;
    webhook_headers_json = server.webhook_headers_json;
    webhook_body_template = server.webhook_body_template;
    webhook_payload_preset = server.webhook_payload_preset;
    event_types = filter (contains types) fs_event_types;
    folders = map folder_read folders;
  })

-- Nothing of a stored secret but that there is one can be read: two servers that differ only in
-- the ciphertext read alike.
pub server_read-secret :
    (server : Server) (folders : List LoadedFolder) (token : Text)
    → server.secret_encrypted ≡ some token
    → (other : Text)
    → server_read (record server { secret_encrypted = some other }) folders
      ≡ server_read server folders
unfolding server_read
server_read-secret server folders token h other = rw h refl

pub record EventRead : Type 0 where
  pub ts : Text
  pub server_id : ℕ
  pub server_name : Text
  pub scan_mode : Text
  pub scan_key : Text
  pub scan_path : Option Text
  pub library_id : Option Text
  pub event_type : Text
  pub file_path : Text
  pub ok : Bool
  pub status_code : Option ℕ
  pub detail : Text

-- `EventRead.from_record`
abbrev pub event_read : EventRecord → EventRead
event_read r = record {
  ts = r.ts;
  server_id = r.server_id;
  server_name = r.server_name;
  scan_mode = r.scan_mode;
  scan_key = r.scan_key;
  scan_path = r.scan_path;
  library_id = r.library_id;
  event_type = r.event_type;
  file_path = r.file_path;
  ok = r.ok;
  status_code = r.status_code;
  detail = r.detail;
}
