-- ===== src/Engine/Handling.antt =====
-- What the engine makes of an event of the watcher.
pub mod Keeping
use syno_plex_change_monitor.Engine.Handling.Keeping.{
  Spares, Keeps, HasValid, rebuild-debouncer, run_steps-Keeps, submitted-Keeps,
  submit_requests-Keeps,
}
use syno_plex_change_monitor.Base.{
  ℕ, suc, ◌≡◌, ◌≢◌, ◌⊎◌, refl, sym, ◌∙◌, ap, Bool, if◌then◌else◌, true, false, not, Option, none,
  some, List, [], ◌∷◌, ◌++◌, arith, inl, inr, Bool-cases, nat_eq, list_eq,
}
use mathlib.Core.Path.{subst}
use syno_plex_change_monitor.Base.Dict.{has_key}
use syno_plex_change_monitor.Base.Lists.{All}
use syno_plex_change_monitor.Base.Text.{Text}
use syno_plex_change_monitor.Config.{RuntimeConfig}
use syno_plex_change_monitor.Config.Build.{build_runtime_config}
use syno_plex_change_monitor.Db.Tables.{Tables}
use syno_plex_change_monitor.Pipeline.Debounce.{
  Key, key_of, Debouncer, submit, wake, update_servers,
}
use syno_plex_change_monitor.Pipeline.Debounce.Burst.{dispatched_for}
use syno_plex_change_monitor.Pipeline.Debounce.Valid.{
  IsValid, submit-IsValid, update_servers-IsValid,
}
use syno_plex_change_monitor.Pipeline.Debounce.Valid.Wake.{wake-IsValid}
use syno_plex_change_monitor.Pipeline.Debounce.Submitted.{
  Covered, Pending, Covered-Pending, submit-Covered, submit-own, wake-Covered,
  update_servers-Covered,
}
use syno_plex_change_monitor.Pipeline.Dispatcher.{Dispatcher}
use syno_plex_change_monitor.Pipeline.Events.{FsEvent, ScanRequest}
use syno_plex_change_monitor.Pipeline.Router.{route}
use syno_plex_change_monitor.Engine.{Engine, EngineError, runtime_error, Machine}
use syno_plex_change_monitor.Engine.Control.{rebuild, rebuild_parts}
use syno_plex_change_monitor.Engine.Events.{
  Step, woke, rebuilt, Pause, on_found, on_debouncer, run_step, run_steps, submit_requests,
  handle_event, handle_with, publish_raw,
}

module _ {W : Type 0} (m : Machine W) where
  -- The key's requests since the submission at which the debouncer was `o`.
  abbrev PendingSince : Key → Option Debouncer → Debouncer → Type 0
  PendingSince k none next = ⊥
  PendingSince k (some d) next = Pending k (dispatched_for k d) next

  -- Each request of the loop is pending since its own submission.
  abbrev pub NoneLost : (ℕ → Pause) → ℕ → List ScanRequest → Engine W → Debouncer → Type 0
  NoneLost pauses i [] s next = Unit
  NoneLost pauses i (req ∷ requests) s next =
      PendingSince (key_of req) s.debouncer next
      × NoneLost pauses (suc i) requests
          (run_steps m (pauses i).steps (on_debouncer (submit (pauses i).now req) s)) next

  run_steps-HasValid :
      (steps : List Step) (s : Engine W)
      → HasValid s.debouncer
      → HasValid (run_steps m steps s).debouncer
  unfolding run_steps
  run_steps-HasValid [] s v = v
  run_steps-HasValid (step ∷ steps) s v = run_steps-HasValid steps (run_step m step s) (one step)
    where
      woken : (id : ℕ) (o : Option Debouncer) → HasValid o → HasValid (on_found (wake id) o)
      woken id none v = v
      woken id (some d) v = wake-IsValid id v

      one : (step : Step) → HasValid (run_step m step s).debouncer
      one (woke id) = woken id s.debouncer v
      one (rebuilt t) =
          rebuild-debouncer m HasValid t s v λ config d e q. update_servers-IsValid config.servers q

  submitted-HasValid :
      (now : ℕ) (req : ScanRequest) (o : Option Debouncer)
      → HasValid o
      → HasValid (on_found (submit now req) o)
  submitted-HasValid now req none v = v
  submitted-HasValid now req (some d) v = submit-IsValid now req v

  -- No step takes the server of a request away.
  abbrev pub AllSpared : (ℕ → Pause) → List ScanRequest → Type 0
  AllSpared pauses = All (λ req. (j : ℕ) → All (Spares m req.server_id) (pauses j).steps)

  pending_since :
      (pauses : ℕ → Pause) (i : ℕ) (req : ScanRequest) (requests : List ScanRequest) (s : Engine W)
      (next : Debouncer)
      → HasValid s.debouncer
      → ((j : ℕ) → All (Spares m req.server_id) (pauses j).steps)
      → (submit_requests m pauses i (req ∷ requests) s).debouncer ≡ some next
      → PendingSince (key_of req) s.debouncer next
  unfolding submit_requests
  pending_since pauses i req requests s next v h e = go s.debouncer refl v
    where
      k : Key
      k = key_of req

      submitted : Engine W
      submitted = on_debouncer (submit (pauses i).now req) s

      kept :
          (before : List ScanRequest)
          → Keeps (key_of req) before submitted.debouncer
          → Pending (key_of req) before next
      kept before p =
          let (valid, covered) = subst (Keeps (key_of req) before) e (
            submit_requests-Keeps m (key_of req) before pauses (suc i) requests
              (run_steps m (pauses i).steps submitted) h
              (run_steps-Keeps m (key_of req) before (pauses i).steps submitted (h i) p)) in
          Covered-Pending (key_of req) before next valid covered

      go : (o : Option Debouncer) → s.debouncer ≡ o → HasValid o → PendingSince (key_of req) o next
      go none q v = v
      go (some d) q v = kept (dispatched_for (key_of req) d) (
          subst
            (λ o.
              Keeps (key_of req) (dispatched_for (key_of req) d)
                (on_found (submit (pauses i).now req) o))
            (sym q) (submit-IsValid (pauses i).now req v, submit-own (pauses i).now req d v))

  submit_requests-NoneLost :
      (pauses : ℕ → Pause) (i : ℕ) (requests : List ScanRequest) (s : Engine W) (next : Debouncer)
      → HasValid s.debouncer
      → AllSpared pauses requests
      → (submit_requests m pauses i requests s).debouncer ≡ some next
      → NoneLost pauses i requests s next
  unfolding submit_requests
  submit_requests-NoneLost pauses i [] s next v h e = tt
  submit_requests-NoneLost pauses i (req ∷ requests) s next v (h, hs) e =
      let submitted = on_debouncer (submit (pauses i).now req) s in
      (
        pending_since pauses i req requests s next v h e,
        submit_requests-NoneLost pauses (suc i) requests (run_steps m (pauses i).steps submitted)
            next
            (run_steps-HasValid (pauses i).steps submitted
              (submitted-HasValid (pauses i).now req s.debouncer v))
            hs e,
      )

  submit_requests-HasValid :
      (pauses : ℕ → Pause) (i : ℕ) (requests : List ScanRequest) (s : Engine W)
      → HasValid s.debouncer
      → HasValid (submit_requests m pauses i requests s).debouncer
  unfolding submit_requests
  submit_requests-HasValid pauses i [] s v = v
  submit_requests-HasValid pauses i (req ∷ requests) s v =
      let submitted = on_debouncer (submit (pauses i).now req) s in
      submit_requests-HasValid pauses (suc i) requests (run_steps m (pauses i).steps submitted) (
        run_steps-HasValid (pauses i).steps submitted
          (submitted-HasValid (pauses i).now req s.debouncer v))

  some-of_IsValid : (o : Option Debouncer) → HasValid o → (d : Debouncer) × (o ≡ some d) × IsValid d
  some-of_IsValid none v = absurd v
  some-of_IsValid (some d) v = (d, refl, v)

  -- The engine when the loop over the requests begins: the event has been shown to the raw bus.
  abbrev pub published : Text → FsEvent → List ScanRequest → Engine W → Engine W
  published ts event requests s = record s {
    raw_events_bus = publish_raw ts event requests s.raw_events_bus;
  }

  -- An event that reaches an engine with a snapshot, whose timers and live tasks belong together,
  -- loses no request of those that the router makes of it with that snapshot, whatever timers wake
  -- and rebuilds swap while the handler awaits each submission, as long as no rebuild takes a
  -- request's server away and the engine is not closed: at the end, for each request, since its own
  -- submission a request of its key was dispatched, or its key has a live timer that carries a
  -- request of the key; and timers and live tasks still belong together.
  pub handle_event_lem :
      (pauses : ℕ → Pause) (ts : Text) (event : FsEvent) (s : Engine W) (config : RuntimeConfig)
      (debouncer : Debouncer)
      → s.config ≡ some config
      → s.debouncer ≡ some debouncer
      → IsValid debouncer
      → AllSpared pauses (route m.lower event config)
      → (next : Debouncer) × ((handle_event m pauses ts event s).debouncer ≡ some next)
        × IsValid next
        × NoneLost pauses 0
            (route m.lower event config)
            (published ts event (route m.lower event config) s)
            next
  unfolding handle_event
  handle_event_lem pauses ts event s config debouncer c d v h =
      let requests = route m.lower event config in
      let before = published ts event requests s in
      let valid : HasValid before.debouncer = subst HasValid (sym d) v in
      let handled : handle_event m pauses ts event s ≡ submit_requests m pauses 0 requests before =
        ap (λ o. handle_with m pauses ts event o s.debouncer s) c
        ∙ ap (λ o. handle_with m pauses ts event (some config) o s) d in
      let (next, e, w) =
        some-of_IsValid _ (submit_requests-HasValid pauses 0 requests before valid) in
      (
        next,
        ap (λ (t : Engine W). t.debouncer) handled ∙ e,
        w,
        submit_requests-NoneLost pauses 0 requests before next valid h e,
      )
