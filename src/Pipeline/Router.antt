-- ===== src/Pipeline/Router.antt =====
-- mediascanmonitor/pipeline/router.py
pub mod Prefix
pub mod ScanPath
pub mod Fanout
use syno_plex_change_monitor.Base.{
  ℕ, Bool, true, false, not, ◌&&◌, Option, none, some, List, [], ◌∷◌, ◌++◌, ◌==◌, nat_eq, list_eq,
  if◌then◌else◌, contains,
}
use syno_plex_change_monitor.Base.Lists.{length, drop}
use syno_plex_change_monitor.Base.Text.{
  Text, codes, slash, split, lstrip, rstrip, starts_with, ends_with,
}
use syno_plex_change_monitor.Models.{ScanMode, targeted, library, event_type_eq}
use syno_plex_change_monitor.Config.{FolderRoute, RuntimeConfig}
use syno_plex_change_monitor.Pipeline.Events.{FsEvent, ScanRequest}
use syno_plex_change_monitor.Pipeline.Filters.{is_ignored, extension_matches}

abbrev pub is_slash : ℕ → Bool
is_slash c = c == slash

-- The test `len(parts) >= 2`, and the two returns.
unfoldable pub scan_path_of : Text → List Text → Text × Option Text
unfolding rstrip
scan_path_of folder_root (top_folder ∷ _ ∷ _) =
    (rstrip is_slash folder_root ++ slash ∷ top_folder, some top_folder)
scan_path_of folder_root _ = (folder_root, none)

unfoldable pub compute_scan_path : Text → Text → Text × Option Text
unfolding scan_path_of lstrip split
compute_scan_path folder_root file_path =
    scan_path_of folder_root (split slash (lstrip is_slash (drop (length folder_root) file_path)))

unfoldable pub is_path_prefix : Text → Text → Bool
unfolding list_eq nat_eq starts_with ends_with
is_path_prefix prefix path =
    if path == prefix
    then true
    else let prefix_with_sep = if ends_with prefix slash then prefix else prefix ++ slash ∷ [] in
      starts_with path prefix_with_sep

-- A missing id is formatted as Python's `None`.
abbrev pub format_option : Option Text → Text
format_option none = codes "None"
format_option (some t) = t

-- The three tests of the loop body, in their order.
unfoldable pub route_matches : (Text → Text) → FsEvent → FolderRoute → Bool
unfolding is_path_prefix extension_matches event_type_eq
route_matches lower event route =
    is_path_prefix route.path event.path
    && extension_matches lower event.path route.extensions
    && contains route.event_types event.event_type

abbrev base_request : FsEvent → FolderRoute → ScanRequest
base_request event route = record {
  server_id = route.server_id;
  server_name = route.server_name;
  scan_mode = route.scan_mode;
  scan_path = none;
  library_id = route.library_id;
  scan_key = codes "lib:" ++ format_option route.library_id;
  event_type = event.event_type;
  file_path = event.path;
  top_folder = none;
}

abbrev pub request_of_mode : ScanMode → FsEvent → FolderRoute → ScanRequest
request_of_mode library event route = base_request event route
request_of_mode targeted event route =
    let (path, top) = compute_scan_path route.path event.path in
    record (base_request event route) { scan_path = some path; scan_key = path; top_folder = top }

-- The request that is appended for a route that matches.
unfoldable pub scan_request : FsEvent → FolderRoute → ScanRequest
unfolding compute_scan_path
scan_request event route = request_of_mode route.scan_mode event route

-- The loop over the routes, with the requests appended so far.
unfoldable pub route_loop :
    (Text → Text) → FsEvent → List ScanRequest → List FolderRoute → List ScanRequest
unfolding route_matches scan_request
route_loop lower event requests [] = requests
route_loop lower event requests (route ∷ routes) =
    route_loop lower event
      (if route_matches lower event route
        then requests ++ (scan_request event route ∷ [])
        else requests)
      routes

unfoldable pub route : (Text → Text) → FsEvent → RuntimeConfig → List ScanRequest
unfolding is_ignored route_loop
route lower event config =
    if is_ignored event.path config.ignore_dirs then [] else route_loop lower event [] config.routes
