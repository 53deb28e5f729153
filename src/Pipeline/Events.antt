-- ===== src/Pipeline/Events.antt =====
-- mediascanmonitor/pipeline/events.py
use syno_plex_change_monitor.Base.{ℕ, Bool, Option}
use syno_plex_change_monitor.Base.Text.{Text}
use syno_plex_change_monitor.Models.{FsEventType, ScanMode}

pub record FsEvent : Type 0 where
  pub path : Text
  pub event_type : FsEventType
  pub is_dir : Bool

pub record ScanRequest : Type 0 where
  pub server_id : ℕ
  pub server_name : Text
  pub scan_mode : ScanMode
  pub scan_path : Option Text
  pub library_id : Option Text
  pub scan_key : Text
  pub event_type : FsEventType
  pub file_path : Text
  pub top_folder : Option Text
