-- ===== src/Engine/Control.antt =====
-- The methods of the engine that its owner calls: `start` up to its consuming loop, which is
-- `handle_event` for each event, `rebuild` and `aclose`.
use syno_plex_change_monitor.Base.{
  ℕ, Bool, true, not, ◌&&◌, Option, none, some, List, [], nat_eq, list_eq, if◌then◌else◌,
}
use syno_plex_change_monitor.Base.Dict.{Dict}
use syno_plex_change_monitor.Config.{RuntimeConfig}
use syno_plex_change_monitor.Config.Build.{build_runtime_config}
use syno_plex_change_monitor.Db.Tables.{Tables}
use syno_plex_change_monitor.Pipeline.Debounce.{Debouncer, submit, update_servers}
use syno_plex_change_monitor.Pipeline.Debounce
use syno_plex_change_monitor.Pipeline.Dispatcher.{Dispatcher, Adapter}
use syno_plex_change_monitor.Pipeline.Dispatcher
use syno_plex_change_monitor.Engine.{
  starting, blocked, stopped, EngineError, runtime_error, build_error, Engine, build_adapters,
  Machine, gate_ok, state_of, roots_of,
}

module _ {W : Type 0} (m : Machine W) where
  -- The end of `start`, for a watcher and the gate's answer.
  abbrev pub enter : Bool → W → RuntimeConfig → Bool × Engine W → Option EngineError × Engine W
  enter park_when_blocked watcher config (gate, s) =
      if not gate && not park_when_blocked then (none, record s { state = blocked }) else (
        none,
        record s {
          watcher = some (m.set_roots (roots_of gate config) watcher);
          state = state_of gate;
        },
      )

  abbrev pub watcher_of : Option W → RuntimeConfig → W
  watcher_of none config = m.create_watcher config.ignore_dirs
  watcher_of (some watcher) config = watcher

  abbrev pub wired : RuntimeConfig → W → Dict ℕ Adapter × List ℕ → Engine W → Engine W
  wired config watcher (adapters, clients) s = record s {
    config = some config;
    watcher = some watcher;
    clients = clients;
    dispatcher = some (record { adapters = adapters });
    debouncer = some (Debounce.create config.servers);
  }

  abbrev pub start_with :
      Bool → Tables → Option RuntimeConfig → Engine W → Option EngineError × Engine W
  start_with park_when_blocked t none s = (some build_error, s)
  start_with park_when_blocked t (some config) s =
      let watcher = watcher_of s.watcher config in
      enter park_when_blocked watcher config (
        gate_ok m t config
          (wired config watcher (build_adapters m.registry ([], []) config.servers) s))

  -- `start`, up to its loop.
  unfoldable pub start : Bool → Tables → Engine W → Option EngineError × Engine W
  unfolding build_runtime_config build_adapters gate_ok Debounce.create
  start park_when_blocked t s =
      if s.started
      then (some runtime_error, s)
      else start_with park_when_blocked t (build_runtime_config m.lower m.decrypt t)
          (record s { started = true; state = starting })

  -- The statements of `rebuild` that nothing may split.
  abbrev swap :
      Dispatcher
      → Debouncer
      → W
      → RuntimeConfig
      → Dict ℕ Adapter × List ℕ
      → Bool × Engine W
      → Engine W
  swap dispatcher debouncer watcher config (adapters, clients) (gate, s) = record s {
    dispatcher = some (Dispatcher.set_adapters adapters dispatcher);
    debouncer = some (update_servers config.servers debouncer);
    config = some config;
    clients = clients;
    watcher = some (m.set_roots (roots_of gate config) watcher);
    state = state_of gate;
  }

  abbrev pub rebuild_with :
      Dispatcher
      → Debouncer
      → W
      → Tables
      → Option RuntimeConfig
      → Engine W
      → Option EngineError × Engine W
  rebuild_with dispatcher debouncer watcher t none s = (some build_error, s)
  rebuild_with dispatcher debouncer watcher t (some config) s = (
    none,
    swap dispatcher debouncer watcher config (build_adapters m.registry ([], []) config.servers)
        (gate_ok m t config s),
  )

  abbrev pub rebuild_parts :
      Option Dispatcher
      → Option Debouncer
      → Option W
      → Tables
      → Option RuntimeConfig
      → Engine W
      → Option EngineError × Engine W
  rebuild_parts (some dispatcher) (some debouncer) (some watcher) t built s =
      rebuild_with dispatcher debouncer watcher t built s
  rebuild_parts _ _ _ t built s = (some runtime_error, s)

  unfoldable pub rebuild : Tables → Engine W → Option EngineError × Engine W
  unfolding build_runtime_config build_adapters gate_ok update_servers Dispatcher.set_adapters
  rebuild t s =
      if not s.started
      then (some runtime_error, s)
      else rebuild_parts s.dispatcher s.debouncer s.watcher t
          (build_runtime_config m.lower m.decrypt t) s

  abbrev closed_debouncer : Option Debouncer → Option Debouncer
  closed_debouncer none = none
  closed_debouncer (some debouncer) = some (Debounce.aclose debouncer)

  abbrev closed_watcher : Option W → Option W
  closed_watcher none = none
  closed_watcher (some watcher) = some (m.close_watcher watcher)

  unfoldable pub aclose : Engine W → Engine W
  unfolding Debounce.aclose
  aclose s = record s {
    watcher = closed_watcher s.watcher;
    debouncer = closed_debouncer s.debouncer;
    clients = [];
    state = stopped;
  }
