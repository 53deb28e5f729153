-- ===== src/Config/Build.antt =====
-- `build_runtime_config` of mediascanmonitor/config/runtime.py. `none` stands for an exception: a
-- secret that does not decrypt, or an event type that is stored wrongly.
pub mod Laws
use syno_plex_change_monitor.Base.{
  ℕ, Bool, true, false, Option, none, some, List, [], ◌∷◌, ◌++◌, map, if◌then◌else◌, nat_eq,
  list_eq, contains,
}
use syno_plex_change_monitor.Base.Dict.{Dict, insert}
use syno_plex_change_monitor.Base.Partial.{◌>>=◌}
use syno_plex_change_monitor.Base.Text.{Text}
use syno_plex_change_monitor.Models.{Server, FileType, FsEventType}
use syno_plex_change_monitor.Models.EventTypes.{parse_event_types}
use syno_plex_change_monitor.Normalize.{normalize_extension, normalize_path}
use syno_plex_change_monitor.Config.{ServerRuntime, FolderRoute, RuntimeConfig, ignored_dir_names}
use syno_plex_change_monitor.Db.Tables.{Tables}
use syno_plex_change_monitor.Db.Repo.{LoadedFolder, list_servers, list_folders, resolve_secret}

-- The three collections that the loops fill.
pub record Parts : Type 0 where
  pub servers : Dict ℕ ServerRuntime
  pub routes : List FolderRoute
  pub watch_paths : List Text

-- `watch_paths.add(path)`
unfoldable pub add_path : Text → List Text → List Text
unfolding list_eq nat_eq
add_path path paths = if contains paths path then paths else paths ++ (path ∷ [])

abbrev pub runtime_of : Server → Option Text → ServerRuntime
runtime_of server secret = record {
  server_id = server.id;
  name = server.name;
  type = server.type;
  base_url = server.base_url;
  verify_tls = server.verify_tls;
  timeout_seconds = server.timeout_seconds;
  secret = secret;
  scan_mode = server.scan_mode;
  debounce_mode = server.debounce_mode;
  debounce_window_seconds = server.debounce_window_seconds;
  retry_attempts = server.retry_attempts;
  webhook_method = server.webhook_method;
  webhook_headers_json = server.webhook_headers_json;
  webhook_body_template = server.webhook_body_template;
  webhook_payload_preset = server.webhook_payload_preset;
}

module _ (lower : Text → Text) where
  abbrev pub route_of : Server → LoadedFolder → List FsEventType → FolderRoute
  route_of server folder types = record {
    server_id = server.id;
    server_name = server.name;
    path = normalize_path folder.row.path;
    extensions = map (λ ft. normalize_extension lower ft.extension) folder.filetypes;
    library_id = folder.row.library_id;
    scan_mode = server.scan_mode;
    event_types = types;
  }

  -- The body of the inner loop for an enabled folder.
  unfoldable pub add_route : Server → LoadedFolder → Parts → Option Parts
  unfolding add_path normalize_path normalize_extension parse_event_types
  add_route server folder parts = do
    types ← parse_event_types server.event_types
    some (record parts {
      watch_paths = add_path (normalize_path folder.row.path) parts.watch_paths;
      routes = parts.routes ++ (route_of server folder types ∷ []);
    })

  unfoldable pub folder_loop : Server → List LoadedFolder → Parts → Option Parts
  unfolding add_route
  folder_loop server [] parts = some parts
  folder_loop server (folder ∷ folders) parts = do
    next ← if folder.row.enabled then add_route server folder parts else some parts
    folder_loop server folders next

  module _ (decrypt : Text → Option Text) (t : Tables) where
    unfoldable pub server_loop : List Server → Parts → Option Parts
    unfolding folder_loop insert resolve_secret list_folders nat_eq
    server_loop [] parts = some parts
    server_loop (server ∷ servers) parts = do
      secret ← resolve_secret decrypt server
      next ←
          folder_loop server (list_folders server.id t)
            (record parts { servers = insert server.id (runtime_of server secret) parts.servers })
      server_loop servers next

    unfoldable pub build_runtime_config : Option RuntimeConfig
    unfolding server_loop list_servers
    build_runtime_config = do
      parts ←
          server_loop (list_servers true t) (record { servers = []; routes = []; watch_paths = [] })
      some (record {
        watch_paths = parts.watch_paths;
        routes = parts.routes;
        servers = parts.servers;
        ignore_dirs = ignored_dir_names;
      })
