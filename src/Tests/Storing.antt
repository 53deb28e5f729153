-- ===== src/Tests/Storing.antt =====
-- Runs of the validators, of the snapshot, and of the watcher.
use syno_plex_change_monitor.Base.{
  ◌+◌, ◌≤◌, ◌<◌, ◌≡◌, refl, Bool, true, false, Option, none, some, [], ◌∷◌, arith, nat_eq, list_eq,
  contains,
}
use syno_plex_change_monitor.Base.Lists.{All}
use syno_plex_change_monitor.Base.Text.{Text, codes, starts_with}
use syno_plex_change_monitor.Models.{
  moved_to, created, Server, Folder, plex, targeted, trailing, custom,
}
use syno_plex_change_monitor.Normalize.{normalize_path, isabs}
use syno_plex_change_monitor.Db.Schemas.{FolderCreate, validate_folder}
use syno_plex_change_monitor.Db.Schemas.Laws.{IsExtensionSet, IsNormalAbsolute, validate_folder_lem}
use syno_plex_change_monitor.Db.Tables.{Tables}
use syno_plex_change_monitor.Config.{RuntimeConfig, ignored_dir_names}
use syno_plex_change_monitor.Config.Build.{build_runtime_config}
use syno_plex_change_monitor.Config.Build.Laws.{
  RouteIsCovered, PathIsRouted, build_runtime_config-IsCovered,
}
use syno_plex_change_monitor.Watcher.FileTree.{walk, Dir, dir, end, file, sub}
use syno_plex_change_monitor.Watcher.WatchLimit.{
  count_dirs, check_watch_limit, check_watch_limit_lem,
}
use syno_plex_change_monitor.Watcher.Inotify.Coverage.{Covered, set_roots-Covered}
use syno_plex_change_monitor.Watcher.Inotify.{
  create, is_ignored, Backend, set_roots, normalized_set,
}
use syno_plex_change_monitor.Watcher.Inotify.Overlap.{set_roots-forgets}

abbrev pub same_case : Text → Text
same_case t = t

abbrev raw_folder : FolderCreate
raw_folder = record {
  path = codes " /data//tv/ ";
  library_id = none;
  library_name = none;
  enabled = true;
  extensions = codes ".mkv" ∷ codes "mkv" ∷ [];
}

validate_folder_lem_example :
    (isabs (normalize_path raw_folder.path) ≡ false → validate_folder same_case raw_folder ≡ none)
    × (isabs (normalize_path raw_folder.path) ≡ true
        → (folder : FolderCreate) × (validate_folder same_case raw_folder ≡ some folder)
          × (folder.path ≡ normalize_path raw_folder.path)
          × IsNormalAbsolute folder.path
          × IsExtensionSet folder.extensions)
validate_folder_lem_example = validate_folder_lem same_case raw_folder

abbrev pub plex_row : Server
plex_row = record {
  id = 1;
  name = codes "plex";
  type = plex;
  base_url = codes "http://plex";
  verify_tls = true;
  timeout_seconds = 10000;
  secret_encrypted = none;
  scan_mode = targeted;
  debounce_mode = trailing;
  debounce_window_seconds = 30;
  retry_attempts = 3;
  enabled = true;
  webhook_method = none;
  webhook_headers_json = none;
  webhook_body_template = none;
  webhook_payload_preset = custom;
  event_types = codes "created,moved_to";
}

abbrev pub tv_row : Folder
tv_row = record {
  id = 7;
  server_id = 1;
  path = codes "/data/tv";
  library_id = none;
  library_name = none;
  enabled = true;
}

abbrev pub tables : Tables
tables = record {
  servers = plex_row ∷ [];
  folders = tv_row ∷ [];
  filetypes = record { id = 9; folder_id = 7; extension = codes "mkv" } ∷ [];
  settings = [];
}

abbrev pub snapshot : RuntimeConfig
snapshot = record {
  watch_paths = codes "/data/tv" ∷ [];
  routes =
      record {
        server_id = 1;
        server_name = codes "plex";
        path = codes "/data/tv";
        extensions = codes "mkv" ∷ [];
        library_id = none;
        scan_mode = targeted;
        event_types = created ∷ moved_to ∷ [];
      }
      ∷ [];
  servers =
      (
        1,
        record {
          server_id = 1;
          name = codes "plex";
          type = plex;
          base_url = codes "http://plex";
          verify_tls = true;
          timeout_seconds = 10000;
          secret = none;
          scan_mode = targeted;
          debounce_mode = trailing;
          debounce_window_seconds = 30;
          retry_attempts = 3;
          webhook_method = none;
          webhook_headers_json = none;
          webhook_body_template = none;
          webhook_payload_preset = custom;
        },
      )
      ∷ [];
  ignore_dirs = ignored_dir_names;
}

pub snapshot_run : build_runtime_config same_case some tables ≡ some snapshot
unfolding build_runtime_config
snapshot_run = refl

build_runtime_config-IsCovered_example :
    All (RouteIsCovered snapshot.watch_paths snapshot.servers) snapshot.routes
    × All (PathIsRouted snapshot.routes) snapshot.watch_paths
build_runtime_config-IsCovered_example =
    build_runtime_config-IsCovered same_case some tables snapshot snapshot_run

abbrev tree : Dir
tree =
    dir (file (codes "a.mkv") (sub (codes "show") (dir end) (sub (codes "@eaDir") (dir end) end)))

abbrev pub at_tv : Text → Option Dir
at_tv path = some tree

check_watch_limit_lem_example :
    let status = check_watch_limit at_tv ignored_dir_names (λ n. n + n) 3 (codes "/data/tv" ∷ []) in
    (status.ok ≡ true → count_dirs at_tv ignored_dir_names (codes "/data/tv" ∷ []) ≤ 3)
    × (status.ok ≡ false → 3 < status.recommended)
    × (status.needed ≤ status.recommended)
check_watch_limit_lem_example =
    check_watch_limit_lem at_tv ignored_dir_names (λ n. n + n) 3 (λ n. omega arith)
      (codes "/data/tv" ∷ [])

abbrev overlapping : Backend
overlapping = record {
  ignore_dirs = ignored_dir_names;
  watches = codes "/data" ∷ codes "/data/tv" ∷ [];
  roots = codes "/data" ∷ codes "/data/tv" ∷ [];
}

abbrev any_watch : Text → Bool
any_watch path = true

set_roots-forgets_example :
    contains
      (set_roots at_tv any_watch (codes "/data/tv" ∷ []) overlapping).watches
      (codes "/data/tv")
    ≡ false
unfolding list_eq nat_eq normalized_set starts_with
set_roots-forgets_example =
    set_roots-forgets at_tv any_watch (codes "/data/tv" ∷ []) overlapping (codes "/data")
      (codes "/data/tv") refl refl refl

set_roots-Covered_example :
    All
      (Covered (set_roots at_tv any_watch (codes "/data/tv" ∷ []) (create ignored_dir_names)))
      (walk ignored_dir_names tree (codes "/data/tv"))
unfolding normalized_set is_ignored create list_eq nat_eq
set_roots-Covered_example =
    set_roots-Covered at_tv any_watch (codes "/data/tv" ∷ []) (create ignored_dir_names)
      (codes "/data/tv") tree (λ p. refl) refl refl refl refl
