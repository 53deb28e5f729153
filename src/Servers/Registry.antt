-- ===== src/Servers/Registry.antt =====
-- mediascanmonitor/servers/registry.py, and what the adapter classes declare of themselves.
use syno_plex_change_monitor.Base.{ℕ, ◌≡◌, refl, Bool, true, false, List, [], ◌∷◌}
use syno_plex_change_monitor.Base.{Option, some}
use syno_plex_change_monitor.Base.Dict.{Dict, lookup, insert}
use syno_plex_change_monitor.Base.Partial.{◌>>=◌}
use syno_plex_change_monitor.Base.Text.{Text}
use syno_plex_change_monitor.Config.{ServerRuntime}
use syno_plex_change_monitor.Servers.Common.{
  LibraryOption, returned, ServerAdapter, default_list_libraries,
}
use syno_plex_change_monitor.Servers.Http.{Request, Reply, Retrying}
use syno_plex_change_monitor.Servers.MediaServers
use syno_plex_change_monitor.Servers.Webhook
use syno_plex_change_monitor.Servers.Webhook.{Context, Rendered, HeadersJson}
use syno_plex_change_monitor.Models.{server_type_eq, ServerType, ScanMode, targeted, library}
use syno_plex_change_monitor.Servers.MediaServers.{test, MediaServer}

-- The registered classes, by their `server_type`.
pub data AdapterClass : Type 0 where
  media : MediaServer → AdapterClass
  webhook : AdapterClass

-- `_REGISTRY` once every adapter module is imported; no type is missing, so `get_adapter_class`
-- raises its `ValueError` for none.
unfoldable pub get_adapter_class : ServerType → AdapterClass
get_adapter_class ServerType.webhook = webhook
get_adapter_class ServerType.plex = media MediaServer.plex
get_adapter_class ServerType.emby = media MediaServer.emby
get_adapter_class ServerType.jellyfin = media MediaServer.jellyfin
get_adapter_class ServerType.audiobookshelf = media MediaServer.audiobookshelf

-- `cls.server_type`
unfoldable pub server_type : AdapterClass → ServerType
server_type webhook = ServerType.webhook
server_type (media MediaServer.plex) = ServerType.plex
server_type (media MediaServer.emby) = ServerType.emby
server_type (media MediaServer.jellyfin) = ServerType.jellyfin
server_type (media MediaServer.audiobookshelf) = ServerType.audiobookshelf

-- `cls.supported_scan_modes`
unfoldable pub supported_scan_modes : AdapterClass → List ScanMode
supported_scan_modes webhook = targeted ∷ library ∷ []
supported_scan_modes (media MediaServer.plex) = targeted ∷ library ∷ []
supported_scan_modes (media MediaServer.emby) = library ∷ []
supported_scan_modes (media MediaServer.jellyfin) = library ∷ []
supported_scan_modes (media MediaServer.audiobookshelf) = library ∷ []

-- `cls.supports_library_discovery`
unfoldable pub supports_library_discovery : AdapterClass → Bool
supports_library_discovery webhook = false
supports_library_discovery (media kind) = true

-- `_REGISTRY` as a value: what the class that is registered for a type makes of a server.
abbrev pub Registered : Type 0
Registered = Dict ServerType (ServerRuntime → ServerAdapter)

-- `create_adapter`; `none` stands for its `ValueError`.
unfoldable pub create_adapter : Registered → ServerRuntime → Option ServerAdapter
unfolding lookup server_type_eq
create_adapter registry server = do make ← lookup server.type registry; some (make server)

-- What the adapters are built on: tenacity, httpx, Jinja, the JSON readers and `str.upper`.
pub record Net : Type 0 where
  pub retrying : Retrying
  pub send : Request → ℕ → Reply
  pub render : Text → Context → Rendered Text
  pub read_json : Text → HeadersJson
  pub read_libraries : MediaServer → Text → Option (List LibraryOption)
  pub upper : Text → Text
  pub app_name : Text

-- `cls(server, client)`
unfoldable pub adapter_of : Net → AdapterClass → ServerRuntime → ServerAdapter
unfolding MediaServers.trigger MediaServers.test MediaServers.list_libraries Webhook.trigger
    Webhook.test default_list_libraries supports_library_discovery
adapter_of net webhook server = record {
  trigger =
      Webhook.trigger net.render net.read_json net.upper net.app_name net.retrying net.send server;
  test = Webhook.test net.render net.read_json net.upper net.app_name net.retrying net.send server;
  list_libraries = returned default_list_libraries;
  supports_library_discovery = supports_library_discovery webhook;
}
adapter_of net (media kind) server = record {
  trigger = MediaServers.trigger net.retrying net.send kind server;
  test = MediaServers.test net.retrying net.send kind server;
  list_libraries = MediaServers.list_libraries net.retrying net.send net.read_libraries kind server;
  supports_library_discovery = supports_library_discovery (media kind);
}

-- `register`
unfoldable pub register : Net → AdapterClass → Registered → Registered
unfolding adapter_of server_type insert server_type_eq
register net cls registry = insert (server_type cls) (adapter_of net cls) registry

-- `_REGISTRY` once the adapter modules are imported.
unfoldable pub registered : Net → Registered
unfolding register
registered net = register net webhook (
    register net (media MediaServer.plex) (
      register net (media MediaServer.jellyfin) (
        register net (media MediaServer.emby)
          (register net (media MediaServer.audiobookshelf) []))))

lookup-registered :
    (net : Net) (type : ServerType)
    → lookup type (registered net) ≡ some (adapter_of net (get_adapter_class type))
unfolding registered get_adapter_class lookup server_type_eq
lookup-registered net ServerType.webhook = refl
lookup-registered net ServerType.plex = refl
lookup-registered net ServerType.emby = refl
lookup-registered net ServerType.jellyfin = refl
lookup-registered net ServerType.audiobookshelf = refl

-- For every server the registry has an adapter, and it is that of the class of the server's type:
-- no server type is left without a backend.
pub create_adapter-registered :
    (net : Net) (server : ServerRuntime)
    → create_adapter (registered net) server
      ≡ some (adapter_of net (get_adapter_class server.type) server)
unfolding create_adapter
create_adapter-registered net server = rw (lookup-registered net server.type) refl
