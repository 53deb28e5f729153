-- ===== src/Engine/Wiring.antt =====
-- Every request that the router makes has an adapter.
use syno_plex_change_monitor.Base.{
  ℕ, ◌≡◌, refl, sym, ◌∙◌, ap, Bool, true, false, Bool-cases, ◌||◌, none, some, List, [], ◌∷◌, inl,
  inr, nat_eq, list_eq, arith, if◌then◌else◌, ◌==◌,
}
use mathlib.Core.Path.{subst}
use syno_plex_change_monitor.Base.Dict.{Dict, has_key, has_key-insert, lookup}
use syno_plex_change_monitor.Base.Lists.{All, All-map, All-filter, All-of_map, filter}
use syno_plex_change_monitor.Base.Text.{Text}
use syno_plex_change_monitor.Models.{ScanMode, targeted, library}
use syno_plex_change_monitor.Config.{ServerRuntime, RuntimeConfig, FolderRoute}
use syno_plex_change_monitor.Config.Build.{build_runtime_config}
use syno_plex_change_monitor.Config.Build.Laws.{RouteIsCovered, build_runtime_config-IsCovered}
use syno_plex_change_monitor.Db.Tables.{Tables}
use syno_plex_change_monitor.Pipeline.Debounce.{Debouncer}
use syno_plex_change_monitor.Pipeline.Dispatcher.{Dispatcher, Adapter}
use syno_plex_change_monitor.Pipeline.Dispatcher
use syno_plex_change_monitor.Pipeline.Events.{FsEvent, ScanRequest}
use syno_plex_change_monitor.Pipeline.Filters.{is_ignored}
use syno_plex_change_monitor.Pipeline.Router.{route, scan_request, request_of_mode, route_matches}
use syno_plex_change_monitor.Pipeline.Router.Fanout.{route-filter}
use syno_plex_change_monitor.Servers.Registry.{
  Net, registered, create_adapter-registered, adapter_of, get_adapter_class,
}
use syno_plex_change_monitor.Engine.{
  Engine, starting, build_adapters, add_adapter, Machine, gate_ok,
}
use syno_plex_change_monitor.Engine.Control.{start, rebuild, enter, start_with, wired, watcher_of}

build_adapters-has_key :
    (net : Net) (acc : Dict ℕ Adapter × List ℕ) (servers : Dict ℕ ServerRuntime) (id : ℕ)
    → has_key id (build_adapters (registered net) acc servers).0
      ≡ (has_key id acc.0 || has_key id servers)
unfolding build_adapters has_key lookup
build_adapters-has_key net acc [] id = ground arith
build_adapters-has_key net acc ((i, server) ∷ servers) id =
    let adapter = adapter_of net (get_adapter_class server.type) server in
    ap (λ o. has_key id (build_adapters (registered net) (add_adapter i o acc) servers).0)
      (create_adapter-registered net server)
    ∙ build_adapters-has_key net (add_adapter i (some adapter) acc) servers id
    ∙ ap (λ b. b || has_key id servers) (has_key-insert id i adapter.trigger acc.0)
    ∙ either (id == i) (has_key id acc.0)
  where
    either :
        (b c : Bool)
        → ((if b then true else c) || has_key id servers) ≡ (
            c || (elim (if b then some server else lookup id servers) [
              | none ↦ false
              | some _ ↦ true
            ]))
    either true c = ground arith
    either false c = refl

-- Whether the dispatcher has an adapter for the server of a request.
abbrev pub IsServed : Dict ℕ Adapter → ScanRequest → Type 0
IsServed adapters req = has_key req.server_id adapters ≡ true

scan_request-server_id :
    (event : FsEvent) (r : FolderRoute) → (scan_request event r).server_id ≡ r.server_id
unfolding scan_request
scan_request-server_id event r = go r.scan_mode
  where
    go : (mode : ScanMode) → (request_of_mode mode event r).server_id ≡ r.server_id
    go targeted = refl
    go library = refl

route-IsServed :
    (net : Net) (lower : Text → Text) (event : FsEvent) (config : RuntimeConfig)
    → All (RouteIsCovered config.watch_paths config.servers) config.routes
    → All
        (IsServed (build_adapters (registered net) ([], []) config.servers).0)
        (route lower event config)
unfolding has_key lookup
route-IsServed net lower event config h =
    subst (All served) (sym (route-filter lower event config))
      (elim (Bool-cases (is_ignored event.path config.ignore_dirs)) [
        | inl e ↦ rw e tt
        | inr e ↦ rw e (
            All-of_map served (scan_request event)
              (filter (route_matches lower event) config.routes)
              (All-filter (λ r. served (scan_request event r)) (route_matches lower event)
                config.routes
                (All-map (RouteIsCovered config.watch_paths config.servers)
                  (λ r. served (scan_request event r))
                  (λ r k.
                    keys r.server_id (scan_request event r).server_id
                      (scan_request-server_id event r) k.1)
                  config.routes h)))
      ])
  where
    served : ScanRequest → Type 0
    served = IsServed (build_adapters (registered net) ([], []) config.servers).0

    keys :
        (id j : ℕ)
        → j ≡ id
        → has_key id config.servers ≡ true
        → has_key j (build_adapters (registered net) ([], []) config.servers).0 ≡ true
    keys id j e k = build_adapters-has_key net ([], []) config.servers j ∙ rw e k

module _ {W : Type 0} (net : Net) (n : Machine W) where
  -- The machine with the adapter classes registered.
  abbrev pub full : Machine W
  full = record n { registry = registered net }

  -- Every request of an event has its adapter in the engine's dispatcher.
  abbrev pub ServesAll : Engine W → Type 0
  ServesAll s =
      (config : RuntimeConfig) × (s.config ≡ some config)
      × ((dispatcher : Dispatcher) × (s.dispatcher ≡ some dispatcher)
          × ((event : FsEvent) → All (IsServed dispatcher.adapters) (route n.lower event config)))

  covered :
      (t : Tables) (config : RuntimeConfig)
      → build_runtime_config n.lower n.decrypt t ≡ some config
      → (event : FsEvent)
      → All
          (IsServed (build_adapters (registered net) ([], []) config.servers).0)
          (route n.lower event config)
  covered t config e event =
      route-IsServed net n.lower event config
        (build_runtime_config-IsCovered n.lower n.decrypt t config e).0

  enter-ServesAll :
      (park : Bool) (watcher : W) (config : RuntimeConfig) (entry : Bool × Engine W)
      → ServesAll entry.1
      → ServesAll (enter full park watcher config entry).1
  enter-ServesAll true watcher config (true, s) h = h
  enter-ServesAll true watcher config (false, s) h = h
  enter-ServesAll false watcher config (true, s) h = h
  enter-ServesAll false watcher config (false, s) h = h

  gate_ok-ServesAll :
      (t : Tables) (config : RuntimeConfig) (s : Engine W)
      → ServesAll s
      → ServesAll (gate_ok full t config s).1
  unfolding gate_ok
  gate_ok-ServesAll t config s h = elim (Bool-cases (config.watch_paths == [])) [
    | inl e ↦ rw e h
    | inr e ↦ rw e h
  ]

  start_with-ServesAll :
      (park : Bool) (t : Tables) (config : RuntimeConfig) (s : Engine W)
      → build_runtime_config n.lower n.decrypt t ≡ some config
      → ServesAll (start_with full park t (some config) s).1
  start_with-ServesAll park t config s e =
      let watcher = watcher_of full s.watcher config in
      let ready =
        wired full config watcher (build_adapters (registered net) ([], []) config.servers) s in
      enter-ServesAll park watcher config (gate_ok full t config ready)
        (gate_ok-ServesAll t config ready (config, refl, (_, refl, covered t config e)))

  -- Where the snapshot can be built: after the start of an engine that was not started, and after
  -- a rebuild of one that was, the engine's dispatcher has an adapter for the server of every
  -- request that the router makes of any event by the engine's snapshot.
  pub ServesAll_lem :
      (park_when_blocked : Bool) (t : Tables) (fresh s : Engine W) (config : RuntimeConfig)
      (dispatcher : Dispatcher) (debouncer : Debouncer) (watcher : W)
      → build_runtime_config n.lower n.decrypt t ≡ some config
      → fresh.started ≡ false
      → s.started ≡ true
      → s.dispatcher ≡ some dispatcher
      → s.debouncer ≡ some debouncer
      → s.watcher ≡ some watcher
      → ServesAll (start full park_when_blocked t fresh).1 × ServesAll (rebuild full t s).1
  unfolding start rebuild gate_ok Dispatcher.set_adapters
  ServesAll_lem park t fresh s config dispatcher debouncer watcher e f h d b w = (
    rw f (
        rw e (
          start_with-ServesAll park t config (record fresh { started = true; state = starting })
            e)),
    rw (h, d, b, w, e) (config, refl, (_, refl, covered t config e)),
  )
