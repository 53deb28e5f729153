-- ===== src/Tests/Running.antt =====
-- Runs of the engine.
use mathlib.Core.Path.{subst, sym, ◌∙◌}
use mathlib.Core.Option.{some-injective}
use syno_plex_change_monitor.Engine.Events.{Pause, woke, rebuilt}
use syno_plex_change_monitor.Engine.Handling.{NoneLost, published}
use syno_plex_change_monitor.Base.{
  false, ℕ, ◌+◌, ◌≡◌, ◌↔◌, ◌⊎◌, refl, true, none, some, List, [], ◌∷◌, nat_eq, list_eq, pair_eq,
}
use syno_plex_change_monitor.Base.Dict.{has_key}
use syno_plex_change_monitor.Base.Text.{Text, codes}
use syno_plex_change_monitor.Models.{plex}
use syno_plex_change_monitor.Pipeline.Debounce.{Debouncer, create, submit, wake_all}
use syno_plex_change_monitor.Pipeline.Debounce.Valid.{create-IsValid, submit-IsValid}
use syno_plex_change_monitor.Pipeline.Debounce.Burst.{dispatched_for}
use syno_plex_change_monitor.Pipeline.Dispatcher.{Dispatcher}
use syno_plex_change_monitor.Servers.Common.{default_list_libraries, ServerAdapter, returned}
use syno_plex_change_monitor.Config.{RuntimeConfig, ServerRuntime, ignored_dir_names}
use syno_plex_change_monitor.Config.Build.{build_runtime_config}
use syno_plex_change_monitor.Db.Tables.{empty}
use syno_plex_change_monitor.Engine.{
  stopped, Engine, Machine, EngineState, EngineError, running, blocked, runtime_error,
}
use syno_plex_change_monitor.Engine.Control.{start, rebuild}
use syno_plex_change_monitor.Engine
use syno_plex_change_monitor.Engine.Gate.{IsOpen, rebuild_lem}
use syno_plex_change_monitor.Engine.Events.{handle_event}
use syno_plex_change_monitor.Engine.Handling.{handle_event_lem}
use syno_plex_change_monitor.Pipeline.Events.{FsEvent}
use syno_plex_change_monitor.Models.{created}
use syno_plex_change_monitor.Pipeline.Router.{route}
use syno_plex_change_monitor.Pipeline.Debounce.Valid.{IsValid}
use syno_plex_change_monitor.Engine.Wiring.{full, ServesAll, ServesAll_lem}
use syno_plex_change_monitor.Servers.Registry.{Net}
use syno_plex_change_monitor.Servers.Webhook.{rendered, object}
use syno_plex_change_monitor.Tests.Serving.{retrying, send}
use syno_plex_change_monitor.Engine.Lifecycle.{rebuild-start, rebuild_forgets}
use syno_plex_change_monitor.Tests.Debouncing.{server, request}
use syno_plex_change_monitor.Tests.Storing.{tables, snapshot, snapshot_run, at_tv, same_case}

abbrev done_adapter : ServerRuntime → ServerAdapter
done_adapter target = record {
  trigger = λ req. returned (record { ok = true; status_code = some 200; detail = [] });
  test = returned (record { ok = true; detail = [] });
  list_libraries = returned default_list_libraries;
  supports_library_discovery = true;
}

-- A watcher is the list of its roots; the machine has two watches, and the tree has two folders.
abbrev pub machine : ℕ → Machine (List Text)
machine limit = record {
  lower = same_case;
  decrypt = some;
  registry = (plex, done_adapter) ∷ [];
  create_watcher = λ ignore_dirs. [];
  set_roots = λ roots watcher. roots;
  close_watcher = λ watcher. [];
  directory = at_tv;
  ceil_headroom = λ n. n + n;
  max_user_watches = limit;
}

abbrev pub idle : Engine (List Text)
idle = Engine.create none none none

abbrev pub dispatcher : Dispatcher
dispatcher = record { adapters = [] }

abbrev pub waiting : Debouncer
waiting = submit 5 (request (codes "/tv/show/e1.mkv")) (create ((1, server) ∷ []))

abbrev pub working : Engine (List Text)
working = record idle {
  watcher = some [];
  dispatcher = some dispatcher;
  debouncer = some waiting;
  started = true;
  state = running;
}

rebuild_lem_example :
    let next = (rebuild (machine 3) tables working).1 in
    ((rebuild (machine 3) tables working).0 ≡ none)
    × (next.config ≡ some snapshot)
    × ((next.state ≡ running) ↔ IsOpen (machine 3) tables snapshot)
    × (((next.state ≡ running) × (next.watcher ≡ some snapshot.watch_paths))
        ⊎ ((next.state ≡ blocked) × (next.watcher ≡ some [])))
rebuild_lem_example =
    rebuild_lem (machine 3) tables working dispatcher waiting [] snapshot refl refl refl refl
      snapshot_run

rebuild_run :
    ((rebuild (machine 3) tables working).1.state ≡ blocked)
    × ((rebuild (machine 4) tables working).1.state ≡ running)
unfolding rebuild
rebuild_run = (refl, refl)

rebuild-start_example :
    (rebuild (machine 3) tables idle ≡ (some runtime_error, idle))
    × ((rebuild (machine 3) tables (start (machine 3) true tables idle).1).0 ≡ none)
unfolding start Engine.create
rebuild-start_example =
    rebuild-start (machine 3) true tables tables idle snapshot refl refl snapshot_run

nobody : RuntimeConfig
nobody = record { watch_paths = []; routes = []; servers = []; ignore_dirs = ignored_dir_names }

rebuild_forgets_example :
    (next : Debouncer) × ((rebuild (machine 3) empty working).1.debouncer ≡ some next)
    × (dispatched_for (1, codes "/tv/show") (wake_all (0 ∷ 0 ∷ []) next)
        ≡ dispatched_for (1, codes "/tv/show") waiting)
unfolding build_runtime_config has_key nat_eq nobody
rebuild_forgets_example =
    rebuild_forgets (machine 3) empty working dispatcher waiting [] nobody refl refl refl refl refl
      (submit-IsValid 5 (request (codes "/tv/show/e1.mkv")) (create-IsValid ((1, server) ∷ [])))
      (1, codes "/tv/show") (0 ∷ 0 ∷ []) refl

abbrev net : Net
net = record {
  retrying = retrying;
  send = send;
  render = λ template context. rendered template;
  read_json = λ text. object [];
  read_libraries = λ kind body. none;
  upper = same_case;
  app_name = codes "media-scan-monitor";
}

ServesAll_lem_example :
    ServesAll net (machine 3) (start (full net (machine 3)) true tables idle).1
    × ServesAll net (machine 3) (rebuild (full net (machine 3)) tables working).1
unfolding Engine.create
ServesAll_lem_example =
    ServesAll_lem net (machine 3) true tables idle working snapshot dispatcher waiting []
      snapshot_run refl refl refl refl refl

abbrev event : FsEvent
event = record { path = codes "/data/tv/show/e1.mkv"; event_type = created; is_dir = false }

-- While the handler waits, the timer's task wakes and a rebuild swaps the same servers in.
abbrev pauses : ℕ → Pause
pauses i = record { now = 9; steps = woke 0 ∷ rebuilt tables ∷ [] }

spared :
    (config : RuntimeConfig)
    → build_runtime_config same_case (machine 4).decrypt tables ≡ some config
    → has_key 1 config.servers ≡ true
unfolding has_key nat_eq
spared config e =
    subst (λ (c : RuntimeConfig). has_key 1 c.servers ≡ true)
      (some-injective _ _ (sym snapshot_run ∙ e)) refl

handle_event_lem_example :
    (next : Debouncer) × ((handle_event
        (machine 4)
        pauses
        (codes "t")
        event
        (record working { config = some snapshot })).debouncer
      ≡ some next)
    × IsValid next
    × NoneLost
        (machine 4)
        pauses
        0
        (route same_case event snapshot)
        (published
          (machine 4)
          (codes "t")
          event
          (route same_case event snapshot)
          (record working { config = some snapshot }))
        next
unfolding route
handle_event_lem_example =
    handle_event_lem (machine 4) pauses (codes "t") event
      (record working { config = some snapshot }) snapshot waiting refl refl
      (submit-IsValid 5 (request (codes "/tv/show/e1.mkv")) (create-IsValid ((1, server) ∷ [])))
      ((λ j. (tt, (spared, tt))), tt)
