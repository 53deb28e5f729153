-- ===== src/Engine.antt =====
-- mediascanmonitor/engine.py. A method returns the exception that it raises, if any, and the
-- engine. Parameters: the watcher that is passed in or created, what `Repo` needs of its
-- libraries, the machine's directories and limits, and the adapter that each registered class
-- makes of a server.
pub mod Control
pub mod Events
pub mod Gate
pub mod Handling
pub mod Wiring
pub mod Lifecycle
use syno_plex_change_monitor.Base.{
  ℕ, Bool, true, false, not, ◌&&◌, ◌||◌, Option, none, some, List, [], ◌∷◌, ◌++◌, ◌==◌, nat_eq,
  list_eq, if◌then◌else◌,
}
use syno_plex_change_monitor.Base.Dict.{Dict, insert, lookup}
use syno_plex_change_monitor.Base.Text.{Text, codes}
use syno_plex_change_monitor.Models.{ServerType, event_value, scan_mode_value}
use syno_plex_change_monitor.Config.{ServerRuntime, RuntimeConfig}
use syno_plex_change_monitor.Config.Build.{build_runtime_config}
use syno_plex_change_monitor.Db.Tables.{Tables}
use syno_plex_change_monitor.Db.Repo.{get_setting}
use syno_plex_change_monitor.Observ.EventsBus.{EventRecord, RawEventRecord, Bus, publish}
use syno_plex_change_monitor.Pipeline.Debounce.{Debouncer, submit, update_servers}
use syno_plex_change_monitor.Pipeline.Debounce
use syno_plex_change_monitor.Pipeline.Dispatcher.{Dispatcher, Adapter}
use syno_plex_change_monitor.Pipeline.Dispatcher
use syno_plex_change_monitor.Pipeline.Events.{FsEvent, ScanRequest}
use syno_plex_change_monitor.Pipeline.Router.{route}
use syno_plex_change_monitor.Servers.Common.{
  ServerAdapter, TriggerResult, Outcome, returned, raised, cancelled,
}
use syno_plex_change_monitor.Servers.Registry.{Registered, create_adapter}
use syno_plex_change_monitor.Watcher.FileTree.{Dir}
use syno_plex_change_monitor.Watcher.WatchLimit.{WatchLimitStatus, check_watch_limit}

pub data EngineState : Type 0 where
  starting running blocked stopped : EngineState

-- `RuntimeError`, or what the building of the snapshot raised.
pub data EngineError : Type 0 where
  runtime_error build_error : EngineError

pub record Engine (W : Type 0) : Type 0 where
  pub watcher : Option W
  pub events_bus : Option (Bus EventRecord)
  pub raw_events_bus : Option (Bus RawEventRecord)
  pub config : Option RuntimeConfig
  pub dispatcher : Option Dispatcher
  pub debouncer : Option Debouncer
  pub clients : List ℕ
  pub started : Bool
  pub state : EngineState
  pub watch_limit : Option WatchLimitStatus

-- `Engine(repo, watcher=…, events_bus=…, raw_events_bus=…)`
unfoldable pub create :
    {W : Type 0} → Option W → Option (Bus EventRecord) → Option (Bus RawEventRecord) → Engine W
create watcher events_bus raw_events_bus = record {
  watcher = watcher;
  events_bus = events_bus;
  raw_events_bus = raw_events_bus;
  config = none;
  dispatcher = none;
  debouncer = none;
  clients = [];
  started = false;
  state = stopped;
  watch_limit = none;
}

-- One server of `_build_adapters`: without an adapter its client is closed and not kept.
abbrev add_adapter : ℕ → Option ServerAdapter → Dict ℕ Adapter × List ℕ → Dict ℕ Adapter × List ℕ
add_adapter id none (adapters, clients) = (adapters, clients)
add_adapter id (some adapter) (adapters, clients) =
    (insert id adapter.trigger adapters, clients ++ (id ∷ []))

-- The adapters, and the servers whose clients are kept open.
unfoldable pub build_adapters :
    Registered → Dict ℕ Adapter × List ℕ → Dict ℕ ServerRuntime → Dict ℕ Adapter × List ℕ
unfolding insert nat_eq create_adapter
build_adapters registry acc [] = acc
build_adapters registry acc ((id, server) ∷ servers) =
    build_adapters registry (add_adapter id (create_adapter registry server) acc) servers

-- What the engine is built on.
pub record Machine (W : Type 0) : Type 0 where
  pub lower : Text → Text
  pub decrypt : Text → Option Text
  pub registry : Registered
  pub create_watcher : List Text → W
  pub set_roots : List Text → W → W
  pub close_watcher : W → W
  pub directory : Text → Option Dir
  pub ceil_headroom : ℕ → ℕ
  pub max_user_watches : ℕ

-- `policy or "enforce"`
abbrev pub or_enforce : Option Text → Text
or_enforce none = codes "enforce"
or_enforce (some []) = codes "enforce"
or_enforce (some (c ∷ policy)) = c ∷ policy

abbrev pub state_of : Bool → EngineState
state_of gate = if gate then running else blocked

abbrev pub roots_of : Bool → RuntimeConfig → List Text
roots_of gate config = if gate then config.watch_paths else []

module _ {W : Type 0} (m : Machine W) where
  abbrev pub measured : RuntimeConfig → WatchLimitStatus
  measured config =
      check_watch_limit m.directory config.ignore_dirs m.ceil_headroom m.max_user_watches
        config.watch_paths

  -- `_gate_ok`
  unfoldable pub gate_ok : Tables → RuntimeConfig → Engine W → Bool × Engine W
  unfolding get_setting check_watch_limit list_eq nat_eq
  gate_ok t config s =
      if config.watch_paths == [] then (true, record s { watch_limit = none }) else (
        or_enforce (get_setting (codes "inotify_gate") t) == codes "off" || (measured config).ok,
        record s { watch_limit = some (measured config) },
      )
