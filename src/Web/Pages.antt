-- ===== src/Web/Pages.antt =====
-- The handlers of mediascanmonitor/web/pages.py that write. Of a page there is which one
-- it is and what it shows of the service; the texts of its messages are left out.
pub mod Probes
pub mod Views
use syno_plex_change_monitor.Base.{
  ℕ, Bool, true, false, ◌||◌, Option, none, some, List, [], ◌∷◌, ◌++◌, ◌==◌, nat_eq, list_eq,
  if◌then◌else◌,
}
use Prim.Native.String.{String}
use syno_plex_change_monitor.Base.Text.{Text, codes, decimal}
use syno_plex_change_monitor.Models.{Server, ServerType, targeted, trailing, custom}
use syno_plex_change_monitor.Db.Schemas.{ServerCreate, ServerUpdate, FolderCreate}
use syno_plex_change_monitor.Db.Repo.{get_server, list_servers, resolve_secret, set_setting}
use syno_plex_change_monitor.Engine.{Machine}
use syno_plex_change_monitor.Servers.Common.{TestResult, LibraryListResult, Outcome, returned}
use syno_plex_change_monitor.Web.Api.{Service, tables_of, store_of, put_store}
use syno_plex_change_monitor.Web.Api.System.{StatusRead, build_status, gate_key}
use syno_plex_change_monitor.Web.Auth.{Answer, passed, require_page_auth}
use syno_plex_change_monitor.Web.Forms.{
  ServerForm, parse_folder_rows, create_input, update_input, server_type_of, webhook_preset_of,
  or_none,
}
use syno_plex_change_monitor.Web.Probe.{
  runtime_from_server, runtime_from_create, run_connectivity_test, run_library_listing,
}
use syno_plex_change_monitor.Web.ReadModels.{fs_event_types}
use syno_plex_change_monitor.Web.Writes.{
  WriteError, secret_required, name_conflict, missing, integrity, assertion, rebuild_failed,
  Written, written, refused, Store, rebuild_engine, apply_server_create_with_folders,
  apply_server_update_with_folders, apply_server_delete,
}

-- A redirection of the guard or to a new server; an inline error, for a form that cannot be read
-- or a write that was refused; the other partials; an error status; and an exception that the
-- handler may or may not catch, by its class.
pub data Page : Type 0 where
  guard_redirect : Answer → Page
  server_page : ℕ → Page
  unreadable_form saved : Page
  write_error : WriteError → Page
  servers_list : List Server → Page
  status_partial : StatusRead → Page
  test_result : Option TestResult → Page
  library_options : Option LibraryListResult → Page
  error_status : ℕ → Page
  rebuild_error : Page

-- Which of a core's errors the handlers catch: `HTTPException`, and some also `KeyError`.
abbrev pub shown_error : Bool → WriteError → Page
shown_error catches_key secret_required = write_error secret_required
shown_error catches_key name_conflict = write_error name_conflict
shown_error true missing = write_error missing
shown_error false missing = error_status 500
shown_error catches_key integrity = error_status 500
shown_error catches_key assertion = error_status 500
shown_error catches_key rebuild_failed = rebuild_error

module _ {W : Type 0} where
  abbrev admit_page : Answer → (Service W → Page × Service W) → Service W → Page × Service W
  admit_page passed handler s = handler s
  admit_page answer handler s = (guard_redirect answer, s)

  -- `dependencies=[Depends(require_page_auth)]` of the router.
  unfoldable pub guarded_page : Text → (Service W → Page × Service W) → Service W → Page × Service W
  unfolding require_page_auth
  guarded_page path handler s = admit_page (require_page_auth path s.site) handler s

-- `/ui/servers/<id>/<action>`
abbrev server_path : ℕ → String → Text
server_path id action = codes "/ui/servers/" ++ decimal id ++ codes "/" ++ codes action

abbrev or_text : Text → Text → Text
or_text [] default = default
or_text (c ∷ value) default = c ∷ value

-- The `ServerCreate` of a probe, with the schema's defaults for what the form leaves out.
abbrev probe_of : Text → ServerForm → ServerType → ServerCreate
probe_of name f type = record {
  name = name;
  type = type;
  base_url = f.base_url;
  verify_tls = f.verify_tls;
  timeout_seconds = f.timeout_seconds;
  secret = or_none f.secret;
  scan_mode = targeted;
  debounce_mode = trailing;
  debounce_window_seconds = 30;
  retry_attempts = 3;
  enabled = true;
  webhook_method = none;
  webhook_headers_json = none;
  webhook_body_template = none;
  webhook_payload_preset = custom;
  event_types = fs_event_types;
}

abbrev test_input : ServerForm → Option ServerCreate
test_input f = elim (server_type_of f.type) [
  | none ↦ none
  | some type ↦ elim (webhook_preset_of f.webhook_payload_preset) [
    | none ↦ none
    | some preset ↦ some (record (probe_of (or_text f.name (codes "test")) f type) {
      webhook_method = or_none f.webhook_method;
      webhook_headers_json = or_none f.webhook_headers_json;
      webhook_body_template = or_none f.webhook_body_template;
      webhook_payload_preset = preset;
    })
  ]
]

abbrev library_input : ServerForm → Option ServerCreate
library_input f = elim (server_type_of f.type) [
  | none ↦ none
  | some type ↦ some (probe_of (codes "lib-fetch") f type)
]

module _ {W : Type 0} (m : Machine W) (fresh : List ℕ → ℕ) (encrypt : Text → Text) where
  abbrev created_page : Written Server × Store W → Service W → Page × Service W
  created_page (written server, store) s = (server_page server.id, put_store store s)
  created_page (refused e, store) s = (shown_error false e, put_store store s)

  abbrev create_with :
      Option ServerCreate → Option (List FolderCreate) → Service W → Page × Service W
  create_with (some input) (some folders) s =
      created_page (apply_server_create_with_folders m fresh encrypt input folders (store_of s)) s
  create_with _ _ s = (unreadable_form, s)

  -- `POST /ui/servers/new`
  unfoldable pub ui_create_server_with_folders : ServerForm → Service W → Page × Service W
  unfolding guarded_page create_input parse_folder_rows apply_server_create_with_folders
  ui_create_server_with_folders f s =
      guarded_page (codes "/ui/servers/new")
        (λ s. create_with (create_input f) (parse_folder_rows m.lower f.fields) s) s

  abbrev saved_page : Written Server × Store W → Service W → Page × Service W
  saved_page (written server, store) s = (saved, put_store store s)
  saved_page (refused e, store) s = (shown_error true e, put_store store s)

  abbrev update_with :
      ℕ → Option ServerUpdate → Option (List FolderCreate) → Service W → Page × Service W
  update_with id (some update) (some folders) s =
      saved_page (apply_server_update_with_folders m fresh encrypt id update folders (store_of s)) s
  update_with id _ _ s = (unreadable_form, s)

  -- `POST /ui/servers/{server_id}/update`
  unfoldable pub ui_update_server : ℕ → ServerForm → Service W → Page × Service W
  unfolding guarded_page decimal update_input parse_folder_rows apply_server_update_with_folders
  ui_update_server id f s =
      guarded_page (server_path id "update")
        (λ s. update_with id (update_input f) (parse_folder_rows m.lower f.fields) s) s

  abbrev deleted_page : Written (Unit {0}) × Store W → Service W → Page × Service W
  deleted_page (written u, store) s =
      (servers_list (list_servers false store.tables), put_store store s)
  deleted_page (refused e, store) s = (shown_error true e, put_store store s)

  -- `POST /ui/servers/{server_id}/delete`
  unfoldable pub ui_delete_server : ℕ → Service W → Page × Service W
  unfolding guarded_page decimal apply_server_delete list_servers
  ui_delete_server id s =
      guarded_page (server_path id "delete")
        (λ s. deleted_page (apply_server_delete m fresh encrypt id (store_of s)) s) s

  abbrev rechecked : Written (Unit {0}) × Store W → Service W → Page × Service W
  rechecked (written u, store) s =
      (status_partial (build_status store.tables store.engine), put_store store s)
  rechecked (refused e, store) s = (error_status 500, put_store store s)

  -- `POST /ui/settings`
  unfoldable pub ui_settings : Text → Service W → Page × Service W
  unfolding guarded_page set_setting rebuild_engine build_status list_eq nat_eq
  ui_settings inotify_gate s =
      guarded_page (codes "/ui/settings")
        (λ s.
          if inotify_gate == codes "enforce" || inotify_gate == codes "off"
          then rechecked
              (rebuild_engine m tt (set_setting gate_key inotify_gate (tables_of s)) s.engine) s
          else (error_status 422, s))
        s

  -- `POST /ui/recheck`
  unfoldable pub ui_recheck : Service W → Page × Service W
  unfolding guarded_page rebuild_engine build_status
  ui_recheck s =
      guarded_page (codes "/ui/recheck")
        (λ s. rechecked (rebuild_engine m tt (tables_of s) s.engine) s) s
