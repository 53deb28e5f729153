-- ===== src/Engine/Events.antt =====
-- What the engine does with an event of the watcher, and with a request of its debouncer.
use syno_plex_change_monitor.Base.{suc}
use syno_plex_change_monitor.Db.Tables.{Tables}
use syno_plex_change_monitor.Pipeline.Debounce.{wake}
use syno_plex_change_monitor.Engine.Control.{rebuild}
use syno_plex_change_monitor.Base.{
  ℕ, true, false, Option, none, some, List, [], ◌∷◌, nat_eq, list_eq,
}
use syno_plex_change_monitor.Base.Text.{Text}
use syno_plex_change_monitor.Models.{event_value, scan_mode_value}
use syno_plex_change_monitor.Config.{RuntimeConfig}
use syno_plex_change_monitor.Observ.EventsBus.{EventRecord, RawEventRecord, Bus, publish}
use syno_plex_change_monitor.Pipeline.Debounce.{Debouncer, submit}
use syno_plex_change_monitor.Pipeline.Dispatcher.{Dispatcher, Adapter}
use syno_plex_change_monitor.Pipeline.Dispatcher
use syno_plex_change_monitor.Pipeline.Events.{FsEvent, ScanRequest}
use syno_plex_change_monitor.Pipeline.Router.{route}
use syno_plex_change_monitor.Servers.Common.{TriggerResult, Outcome, returned}
use syno_plex_change_monitor.Engine.{Engine, Machine}

abbrev pub publish_raw :
    Text → FsEvent → List ScanRequest → Option (Bus RawEventRecord) → Option (Bus RawEventRecord)
publish_raw ts event requests none = none
publish_raw ts event requests (some bus) = some (
    publish
      (record {
        ts = ts;
        event_type = event_value event.event_type;
        path = event.path;
        is_dir = event.is_dir;
        matched = elim requests [ [] ↦ false | _ ∷ _ ↦ true ];
      })
      bus)

abbrev record_of : Text → ScanRequest → TriggerResult → EventRecord
record_of ts req result = record {
  ts = ts;
  server_id = req.server_id;
  server_name = req.server_name;
  scan_mode = scan_mode_value req.scan_mode;
  scan_key = req.scan_key;
  scan_path = req.scan_path;
  library_id = req.library_id;
  event_type = event_value req.event_type;
  file_path = req.file_path;
  ok = result.ok;
  status_code = result.status_code;
  detail = result.detail;
}

-- A dispatch that was cancelled publishes nothing.
abbrev publish_outcome :
    Text → ScanRequest → Outcome TriggerResult → Option (Bus EventRecord) → Option (Bus EventRecord)
publish_outcome ts req (returned result) (some bus) = some (publish (record_of ts req result) bus)
publish_outcome ts req _ bus = bus

abbrev dispatch_with : {W : Type 0} → Option Dispatcher → Text → ScanRequest → Engine W → Engine W
dispatch_with none ts req s = s
dispatch_with (some dispatcher) ts req s = record s {
  events_bus = publish_outcome ts req (Dispatcher.dispatch req dispatcher) s.events_bus;
}

-- `_dispatch`
unfoldable pub dispatch : {W : Type 0} → Text → ScanRequest → Engine W → Engine W
unfolding publish Dispatcher.dispatch
dispatch ts req s = dispatch_with s.dispatcher ts req s

-- What other tasks of the loop do while the handler waits: a timer's task wakes, or a rebuild makes
-- its swap.
pub data Step : Type 0 where
  woke : ℕ → Step
  rebuilt : Tables → Step

-- One `await debouncer.submit(req)`: the time at which it begins, and what runs before the handler
-- goes on. A request that is not debounced waits here for its whole dispatch.
pub record Pause : Type 0 where
  pub now : ℕ
  pub steps : List Step

abbrev pub on_found : (Debouncer → Debouncer) → Option Debouncer → Option Debouncer
on_found f none = none
on_found f (some debouncer) = some (f debouncer)

-- `start` alone assigns the debouncer, so that the one at hand stays the engine's.
abbrev pub on_debouncer : {W : Type 0} → (Debouncer → Debouncer) → Engine W → Engine W
on_debouncer f s = record s { debouncer = on_found f s.debouncer }

module _ {W : Type 0} (m : Machine W) where
  abbrev pub run_step : Step → Engine W → Engine W
  run_step (woke id) s = on_debouncer (wake id) s
  run_step (rebuilt t) s = (rebuild m t s).1

  unfoldable pub run_steps : List Step → Engine W → Engine W
  unfolding wake rebuild
  run_steps [] s = s
  run_steps (step ∷ steps) s = run_steps steps (run_step step s)

  -- The loop over the requests, with the pause at each by its index.
  unfoldable pub submit_requests : (ℕ → Pause) → ℕ → List ScanRequest → Engine W → Engine W
  unfolding submit run_steps
  submit_requests pauses i [] s = s
  submit_requests pauses i (req ∷ requests) s =
      let pause = pauses i in
      submit_requests pauses (suc i) requests
        (run_steps pause.steps (on_debouncer (submit pause.now req) s))

  abbrev pub handle_with :
      (ℕ → Pause) → Text → FsEvent → Option RuntimeConfig → Option Debouncer → Engine W → Engine W
  handle_with pauses ts event (some config) (some debouncer) s =
      let requests = route m.lower event config in
      submit_requests pauses 0 requests
        (record s { raw_events_bus = publish_raw ts event requests s.raw_events_bus })
  handle_with pauses ts event _ _ s = s

  -- `_handle_event`, at a time of the calendar, with what runs while it waits.
  unfoldable pub handle_event : (ℕ → Pause) → Text → FsEvent → Engine W → Engine W
  unfolding route publish submit_requests
  handle_event pauses ts event s = handle_with pauses ts event s.config s.debouncer s
