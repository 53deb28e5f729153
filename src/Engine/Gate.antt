-- ===== src/Engine/Gate.antt =====
-- When the watcher is attached.
use syno_plex_change_monitor.Base.{
  ◌≡◌, refl, ap, Bool, true, false, Option, none, some, [], ◌∷◌, ◌↔◌, ◌⊎◌, inl, inr, nat_eq,
  list_eq, arith,
}
use syno_plex_change_monitor.Base.Text.{Text, codes}
use syno_plex_change_monitor.Config.{RuntimeConfig}
use syno_plex_change_monitor.Config.Build.{build_runtime_config}
use syno_plex_change_monitor.Db.Tables.{Tables}
use syno_plex_change_monitor.Db.Repo.{get_setting}
use syno_plex_change_monitor.Pipeline.Debounce.{Debouncer}
use syno_plex_change_monitor.Pipeline.Dispatcher.{Dispatcher}
use syno_plex_change_monitor.Engine.{
  Engine, running, blocked, Machine, measured, or_enforce, state_of, roots_of, gate_ok,
}
use syno_plex_change_monitor.Engine.Control.{rebuild}

-- What the gate asks for: nothing to watch, a policy of `off`, or enough watches.
abbrev pub IsOpen : {W : Type 0} → Machine W → Tables → RuntimeConfig → Type 0
IsOpen m t config =
    (config.watch_paths ≡ [])
    ⊎ ((get_setting (codes "inotify_gate") t ≡ some (codes "off"))
        ⊎ ((measured m config).ok ≡ true))

or_enforce_off :
    (policy : Option Text) → (or_enforce policy ≡ codes "off") ↔ (policy ≡ some (codes "off"))
or_enforce_off none = (λ h. cc, λ h. cc)
or_enforce_off (some []) = (λ h. cc, λ h. cc)
or_enforce_off (some (c ∷ policy)) = (λ h. ap some h, λ h. cc)

module _ {W : Type 0} (m : Machine W) (t : Tables) where
  pub gate_ok-IsOpen :
      (config : RuntimeConfig) (s : Engine W)
      → ((gate_ok m t config s).0 ≡ true) ↔ IsOpen m t config
  unfolding gate_ok
  gate_ok-IsOpen config s =
      let (to, of) = or_enforce_off (get_setting (codes "inotify_gate") t) in ground arith

  -- The state and the watcher that follow from the gate's answer.
  entered :
      (gate : Bool) (P : Type 0) (config : RuntimeConfig) (watcher : W)
      → (gate ≡ true) ↔ P
      → ((state_of gate ≡ running) ↔ P)
        × (((state_of gate ≡ running)
              × (some (m.set_roots (roots_of gate config) watcher)
                  ≡ some (m.set_roots config.watch_paths watcher)))
            ⊎ ((state_of gate ≡ blocked)
                × (some (m.set_roots (roots_of gate config) watcher)
                    ≡ some (m.set_roots [] watcher))))
  entered true P config watcher (to, of) = ((λ h. to refl, λ p. refl), inl (refl, refl))
  entered false P config watcher (to, of) =
      ((λ h. absurd cc, λ p. absurd (ground (arith, of p))), inr (refl, refl))

  -- Once started, where the snapshot can be built: a rebuild raises nothing, makes the snapshot the
  -- engine's, and the engine runs exactly if the gate is open. It runs with the watcher at the
  -- snapshot's paths, and otherwise is blocked with the watcher at no path at all, whatever the
  -- state was before.
  pub rebuild_lem :
      (s : Engine W) (dispatcher : Dispatcher) (debouncer : Debouncer) (watcher : W)
      (config : RuntimeConfig)
      → s.started ≡ true
      → s.dispatcher ≡ some dispatcher
      → s.debouncer ≡ some debouncer
      → s.watcher ≡ some watcher
      → build_runtime_config m.lower m.decrypt t ≡ some config
      → let next = (rebuild m t s).1 in
        ((rebuild m t s).0 ≡ none)
        × (next.config ≡ some config)
        × ((next.state ≡ running) ↔ IsOpen m t config)
        × (((next.state ≡ running) × (next.watcher ≡ some (m.set_roots config.watch_paths watcher)))
            ⊎ ((next.state ≡ blocked) × (next.watcher ≡ some (m.set_roots [] watcher))))
  unfolding rebuild
  rebuild_lem s dispatcher debouncer watcher config h d b w e =
      rw (h, d, b, w, e)
        (let here : Engine W = record s {
          watcher = some watcher;
          dispatcher = some dispatcher;
          debouncer = some debouncer;
          started = true;
        } in
          let (state, attached) =
            entered _ (IsOpen m t config) config watcher (gate_ok-IsOpen config here) in
          (refl, refl, state, attached))
