-- ===== src/Engine/Handling/Keeping.antt =====
-- What the steps of other tasks, and further requests, leave of a request that was submitted.
use syno_plex_change_monitor.Base.{
  ℕ, suc, ◌≡◌, refl, Bool, if◌then◌else◌, true, false, not, Option, none, some, List, [], ◌∷◌,
  nat_eq, list_eq,
}
use syno_plex_change_monitor.Base.Dict.{has_key}
use syno_plex_change_monitor.Base.Lists.{All}
use syno_plex_change_monitor.Config.{RuntimeConfig}
use syno_plex_change_monitor.Config.Build.{build_runtime_config}
use syno_plex_change_monitor.Db.Tables.{Tables}
use syno_plex_change_monitor.Pipeline.Debounce.{Key, Debouncer, submit, wake, update_servers}
use syno_plex_change_monitor.Pipeline.Debounce.Valid.{
  IsValid, submit-IsValid, update_servers-IsValid,
}
use syno_plex_change_monitor.Pipeline.Debounce.Valid.Wake.{wake-IsValid}
use syno_plex_change_monitor.Pipeline.Debounce.Submitted.{
  Covered, submit-Covered, wake-Covered, update_servers-Covered,
}
use syno_plex_change_monitor.Pipeline.Dispatcher.{Dispatcher}
use syno_plex_change_monitor.Pipeline.Events.{ScanRequest}
use syno_plex_change_monitor.Engine.{Engine, EngineError, runtime_error, Machine}
use syno_plex_change_monitor.Engine.Control.{rebuild, rebuild_parts}
use syno_plex_change_monitor.Engine.Events.{
  Step, woke, rebuilt, Pause, on_found, on_debouncer, run_step, run_steps, submit_requests,
}

-- A debouncer in force that is valid and covers a request of the key since `before`.
abbrev pub Keeps : Key → List ScanRequest → Option Debouncer → Type 0
Keeps k before none = ⊥
Keeps k before (some d) = IsValid d × Covered k before d

-- The debouncer in force is valid.
abbrev pub HasValid : Option Debouncer → Type 0
HasValid none = ⊥
HasValid (some d) = IsValid d

pub submitted-Keeps :
    (k : Key) (before : List ScanRequest) (now : ℕ) (req : ScanRequest) (o : Option Debouncer)
    → Keeps k before o
    → Keeps k before (on_found (submit now req) o)
submitted-Keeps k before now req none p = p
submitted-Keeps k before now req (some d) (v, c) =
    (submit-IsValid now req v, submit-Covered k before now req d v c)

module _ {W : Type 0} (m : Machine W) where
  -- A step that takes no server away: a snapshot that a rebuild builds has the server.
  abbrev pub Spares : ℕ → Step → Type 0
  Spares id (woke task) = Unit
  Spares id (rebuilt t) =
      (config : RuntimeConfig)
      → build_runtime_config m.lower m.decrypt t ≡ some config
      → has_key id config.servers ≡ true

  -- What holds of the debouncer holds after a rebuild, if a change of the servers keeps it.
  pub rebuild-debouncer :
      (P : Option Debouncer → Type 0) (t : Tables) (s : Engine W)
      → P s.debouncer
      → ((config : RuntimeConfig) (d : Debouncer)
          → build_runtime_config m.lower m.decrypt t ≡ some config
          → P (some d)
          → P (some (update_servers config.servers d)))
      → P (rebuild m t s).1.debouncer
  unfolding rebuild
  rebuild-debouncer P t s p keep = chosen s.started _ (parts s.dispatcher s.debouncer s.watcher p)
    where
      chosen :
          (started : Bool) (after : Option EngineError × Engine W)
          → P after.1.debouncer
          → P (if not started then (some runtime_error, s) else after).1.debouncer
      chosen true after q = q
      chosen false after q = p

      built :
          (dispatcher : Dispatcher) (d : Debouncer) (watcher : W) (o : Option RuntimeConfig)
          → build_runtime_config m.lower m.decrypt t ≡ o
          → P s.debouncer
          → P (some d)
          → P (rebuild_parts m (some dispatcher) (some d) (some watcher) t o s).1.debouncer
      built dispatcher d watcher none e q p = q
      built dispatcher d watcher (some config) e q p = keep config d e p

      parts :
          (dispatcher : Option Dispatcher) (o : Option Debouncer) (watcher : Option W)
          → P o
          → let (_, next) =
              rebuild_parts m dispatcher o watcher t (build_runtime_config m.lower m.decrypt t) s in
            P next.debouncer
      parts (some dispatcher) (some d) (some watcher) q =
          built dispatcher d watcher (build_runtime_config m.lower m.decrypt t) refl p q
      parts none o watcher q = p
      parts (some dispatcher) none watcher q = p
      parts (some dispatcher) (some d) none q = p

  pub run_step-Keeps :
      (k : Key) (before : List ScanRequest) (step : Step) (s : Engine W)
      → Spares k.0 step
      → Keeps k before s.debouncer
      → Keeps k before (run_step m step s).debouncer
  run_step-Keeps k before (woke id) s h p = go s.debouncer p
    where
      go : (o : Option Debouncer) → Keeps k before o → Keeps k before (on_found (wake id) o)
      go none p = p
      go (some d) (v, c) = (wake-IsValid id v, wake-Covered k before id d v c)
  run_step-Keeps k before (rebuilt t) s h p =
      rebuild-debouncer (Keeps k before) t s p λ config d e q. (
        update_servers-IsValid config.servers q.0,
        update_servers-Covered k before config.servers d q.0 (h config e) q.1,
      )

  pub run_steps-Keeps :
      (k : Key) (before : List ScanRequest) (steps : List Step) (s : Engine W)
      → All (Spares k.0) steps
      → Keeps k before s.debouncer
      → Keeps k before (run_steps m steps s).debouncer
  unfolding run_steps
  run_steps-Keeps k before [] s h p = p
  run_steps-Keeps k before (step ∷ steps) s (h, hs) p =
      run_steps-Keeps k before steps (run_step m step s) hs (run_step-Keeps k before step s h p)

  pub submit_requests-Keeps :
      (k : Key) (before : List ScanRequest) (pauses : ℕ → Pause) (i : ℕ)
      (requests : List ScanRequest) (s : Engine W)
      → ((j : ℕ) → All (Spares k.0) (pauses j).steps)
      → Keeps k before s.debouncer
      → Keeps k before (submit_requests m pauses i requests s).debouncer
  unfolding submit_requests
  submit_requests-Keeps k before pauses i [] s h p = p
  submit_requests-Keeps k before pauses i (req ∷ requests) s h p =
      let submitted = on_debouncer (submit (pauses i).now req) s in
      submit_requests-Keeps k before pauses (suc i) requests
        (run_steps m (pauses i).steps submitted) h
        (run_steps-Keeps k before (pauses i).steps submitted (h i)
          (submitted-Keeps k before (pauses i).now req s.debouncer p))
