-- ===== src/Web/Pages/Views.antt =====
-- The pages of mediascanmonitor/web/pages.py that are only shown: which template is rendered, and
-- the context that it gets.
use syno_plex_change_monitor.Base.{refl}
use syno_plex_change_monitor.Web.Writes.{secret_satisfied, is_stored, update_satisfied}
use syno_plex_change_monitor.Db.Schemas.{ServerUpdate, unset, sent}
use syno_plex_change_monitor.Base.{
  ◌≢◌, ◌&&◌, ℕ, ◌≡◌, ◌↔◌, Bool, true, false, not, Option, none, some, List, [], ◌∷◌, map, nat_eq,
  list_eq, arith, ◌++◌,
}
use syno_plex_change_monitor.Base.Sort.{sorted, text_leb}
use syno_plex_change_monitor.Base.Text.{Text, codes, decimal}
use syno_plex_change_monitor.Models.{
  Server, ServerType, webhook, plex, emby, jellyfin, audiobookshelf, targeted, library, FsEventType,
  created, moved_to, deleted, moved_from, server_type_value, scan_mode_value,
}
use syno_plex_change_monitor.Db.Repo.{LoadedFolder, get_server, list_servers, list_folders}
use syno_plex_change_monitor.Base.Partial.{through_some}
use mathlib.Core.Option.{some-injective}
use mathlib.Core.Path.{sym, ap}
use syno_plex_change_monitor.Models.EventTypes.{parse_event_types}
use syno_plex_change_monitor.Db.Tables.{Tables}
use syno_plex_change_monitor.Servers.Registry.{
  get_adapter_class, supported_scan_modes, supports_library_discovery,
}
use syno_plex_change_monitor.Web.Api.{Service, tables_of}
use syno_plex_change_monitor.Web.Api.System.{StatusRead, build_status}
use syno_plex_change_monitor.Web.Auth.{Answer, passed, require_page_auth}
use syno_plex_change_monitor.Web.ReadModels.{ServerRead, server_read}
use syno_plex_change_monitor.Web.TypeSpecs.{ServerTypeSpec, server_type_specs}

-- The members of the enum in their order, and the keys of `SERVER_TYPE_SPECS` in theirs.
abbrev all_types : List ServerType
all_types = webhook ∷ plex ∷ emby ∷ jellyfin ∷ audiobookshelf ∷ []

abbrev spec_types : List ServerType
spec_types = plex ∷ emby ∷ jellyfin ∷ audiobookshelf ∷ webhook ∷ []

abbrev debounce_mode_values : List Text
debounce_mode_values = codes "off" ∷ codes "trailing" ∷ []

unfoldable pub scan_modes_by_type : List (Text × List Text)
unfolding sorted get_adapter_class supported_scan_modes
scan_modes_by_type =
    map
      (λ type. (
        server_type_value type,
        sorted text_leb (map scan_mode_value (supported_scan_modes (get_adapter_class type))),
      ))
      all_types

abbrev pub event_type_labels : List (FsEventType × Text)
event_type_labels =
    (created, codes "Created")
    ∷ (moved_to, codes "Moved in")
    ∷ (deleted, codes "Deleted")
    ∷ (moved_from, codes "Moved out")
    ∷ []

-- `HTTP_METHODS` of servers/webhook.py
abbrev pub http_methods : List Text
http_methods = codes "POST" ∷ codes "PUT" ∷ codes "PATCH" ∷ codes "GET" ∷ codes "DELETE" ∷ []

-- `(value, label)`: custom first, then the registered presets.
abbrev pub webhook_preset_options : List (Text × Text)
webhook_preset_options =
    (codes "custom", codes "Custom") ∷ (codes "sonarr_radarr", codes "Sonarr / Radarr") ∷ []

-- `_type_specs`: each type's rules, and whether its class lists libraries.
unfoldable pub type_specs : List (Text × ServerTypeSpec × Bool)
unfolding get_adapter_class supports_library_discovery
type_specs =
    map
      (λ type. (
        server_type_value type,
        server_type_specs type,
        supports_library_discovery (get_adapter_class type),
      ))
      spec_types

-- What the page of a server shows beside the server.
pub record DetailContext : Type 0 where
  pub server : ServerRead
  pub specs : ServerTypeSpec
  pub secret_clearable : Bool
  pub library_discovery : Bool
  pub event_type_options : List (FsEventType × Text)
  pub webhook_presets : List (Text × Text)
  pub debounce_modes : List Text
  pub webhook_methods : List Text

-- What the form of a new server shows; `initial_specs` are those of the first type.
pub record NewContext : Type 0 where
  pub server_types : List Text
  pub scan_modes : List Text
  pub event_type_options : List (FsEventType × Text)
  pub type_specs : List (Text × ServerTypeSpec × Bool)
  pub scan_modes_by_type : List (Text × List Text)
  pub webhook_presets : List (Text × Text)
  pub initial_specs : ServerTypeSpec
  pub debounce_modes : List Text
  pub webhook_methods : List Text

pub data View : Type 0 where
  redirected : Answer → View
  dashboard_page : StatusRead → View
  servers_list_page : List Server → View
  new_page : NewContext → View
  detail_page : DetailContext → View
  events_stream_page : View
  error_page : ℕ → View

unfoldable pub detail_context : Server → ServerRead → DetailContext
unfolding get_adapter_class supports_library_discovery
detail_context server read = record {
  server = read;
  specs = server_type_specs server.type;
  secret_clearable = not (server_type_specs server.type).requires_secret;
  library_discovery = supports_library_discovery (get_adapter_class server.type);
  event_type_options = event_type_labels;
  webhook_presets = webhook_preset_options;
  debounce_modes = debounce_mode_values;
  webhook_methods = http_methods;
}

abbrev detail_read : Server → Option ServerRead → View
detail_read server none = error_page 500
detail_read server (some read) = detail_page (detail_context server read)

abbrev detail_found : Tables → Option Server → View
detail_found t none = error_page 404
detail_found t (some server) = detail_read server (server_read server (list_folders server.id t))

abbrev admit_view : Answer → View → View
admit_view passed view = view
admit_view answer view = redirected answer

module _ {W : Type 0} where
  -- `dependencies=[Depends(require_page_auth)]`
  abbrev guarded_view : Text → (Service W → View) → Service W → View
  guarded_view path view s = admit_view (require_page_auth path s.site) (view s)

  -- `GET /`
  unfoldable pub dashboard : Service W → View
  unfolding require_page_auth build_status
  dashboard = guarded_view (codes "/") (λ s. dashboard_page (build_status (tables_of s) s.engine))

  -- `GET /servers`
  unfoldable pub servers_page : Service W → View
  unfolding require_page_auth list_servers
  servers_page =
      guarded_view (codes "/servers") (λ s. servers_list_page (list_servers false (tables_of s)))

  -- `GET /servers/new`
  unfoldable pub server_new_page : Service W → View
  unfolding require_page_auth type_specs scan_modes_by_type
  server_new_page = guarded_view (codes "/servers/new") (λ s. new_page (record {
    server_types = map server_type_value all_types;
    scan_modes = map scan_mode_value (targeted ∷ library ∷ []);
    event_type_options = event_type_labels;
    type_specs = type_specs;
    scan_modes_by_type = scan_modes_by_type;
    webhook_presets = webhook_preset_options;
    initial_specs = server_type_specs webhook;
    debounce_modes = debounce_mode_values;
    webhook_methods = http_methods;
  }))

  -- `GET /servers/{server_id}`
  unfoldable pub server_detail : ℕ → Service W → View
  unfolding require_page_auth decimal get_server server_read list_folders detail_context
  server_detail id =
      guarded_view (codes "/servers/" ++ decimal id)
        (λ s. detail_found (tables_of s) (get_server id (tables_of s)))

  -- `GET /events`
  unfoldable pub events_page : Service W → View
  unfolding require_page_auth
  events_page = guarded_view (codes "/events") (λ s. events_stream_page)

server_read-has_secret :
    (server : Server) (folders : List LoadedFolder) (read : ServerRead)
    → server_read server folders ≡ some read
    → read.has_secret ≡ is_stored server.secret_encrypted
unfolding server_read
server_read-has_secret server folders read =
    through_some (λ (r : ServerRead). r.has_secret ≡ is_stored server.secret_encrypted)
      (parse_event_types server.event_types) _ read
      λ types e. ap (λ (r : ServerRead). r.has_secret) (sym (some-injective _ _ e))

-- The conditions under which `_token_field.html` shows the checkbox and the button that clear the
-- secret.
unfoldable pub offers_clear : DetailContext → Bool
offers_clear context = context.server.has_secret && context.secret_clearable

-- The page of a server whose read model can be built offers to clear the secret exactly if a secret
-- is stored and the write core lets an update through that clears it and leaves the type as it is.
pub clearable_lem :
    (server : Server) (folders : List LoadedFolder) (read : ServerRead) (update : ServerUpdate)
    → server_read server folders ≡ some read
    → update.type ≡ unset
    → update.secret ≡ sent none
    → (offers_clear (detail_context server read) ≡ true)
      ↔ ((server.secret_encrypted ≢ none) × (update_satisfied update server ≡ true))
unfolding detail_context update_satisfied offers_clear
clearable_lem server folders read update shown t s =
    rw (t, s, server_read-has_secret server folders read shown) (clearable server.secret_encrypted)
  where
    clearable :
        (stored : Option Text)
        → (is_stored stored && not (server_type_specs server.type).requires_secret ≡ true)
          ↔ ((stored ≢ none) × (secret_satisfied server.type false ≡ true))
    clearable none = ((λ h. absurd (ground arith)), λ h. absurd (h.0 refl))
    clearable (some token) = ((λ h. ((λ e. cc), ground arith)), λ h. ground arith)
