-- ===== src/Engine/Lifecycle.antt =====
-- The order in which an engine may be used, and what a rebuild does to requests that wait.
use syno_plex_change_monitor.Base.{
  ℕ, ◌≡◌, refl, sym, ◌∙◌, ap, Bool, true, false, not, Option, none, some, List, [], inl, inr, arith,
  nat_eq, if◌then◌else◌, ◌==◌, list_eq, ◌⊎◌, Bool-cases,
}
use mathlib.Core.Path.{subst}
use syno_plex_change_monitor.Base.Dict.{has_key}
use syno_plex_change_monitor.Config.{RuntimeConfig}
use syno_plex_change_monitor.Config.Build.{build_runtime_config}
use syno_plex_change_monitor.Db.Tables.{Tables}
use syno_plex_change_monitor.Pipeline.Debounce.{Debouncer, Key, wake_all, update_servers}
use syno_plex_change_monitor.Pipeline.Debounce.Valid.{IsValid}
use syno_plex_change_monitor.Pipeline.Debounce.Burst.{dispatched_for}
use syno_plex_change_monitor.Pipeline.Debounce.Update.{update_servers_lem}
use syno_plex_change_monitor.Pipeline.Dispatcher.{Dispatcher}
use syno_plex_change_monitor.Engine.{
  Engine, EngineError, runtime_error, build_error, starting, build_adapters, Machine, gate_ok,
}
use syno_plex_change_monitor.Engine.Control.{
  wired, watcher_of, start, start_with, enter, rebuild_parts, rebuild,
}

if_true : {A : Type 0} {b : Bool} (x y : A) → b ≡ true → (if b then x else y) ≡ x
if_true x y h = rw h refl

if_false : {A : Type 0} {b : Bool} (x y : A) → b ≡ false → (if b then x else y) ≡ y
if_false x y h = rw h refl

module _ {W : Type 0} (m : Machine W) where
  -- What a rebuild needs.
  abbrev IsWired : Engine W → Type 0
  IsWired s =
      (s.started ≡ true)
      × ((d : Dispatcher) × (s.dispatcher ≡ some d))
      × ((b : Debouncer) × (s.debouncer ≡ some b))
      × ((w : W) × (s.watcher ≡ some w))

  enter-IsWired :
      (park : Bool) (watcher : W) (config : RuntimeConfig) (p : Bool × Engine W)
      → IsWired p.1
      → ((enter m park watcher config p).0 ≡ none) × IsWired (enter m park watcher config p).1
  enter-IsWired park watcher config (true, s) (a, d, b, w) = (refl, (a, d, b, (_, refl)))
  enter-IsWired true watcher config (false, s) (a, d, b, w) = (refl, (a, d, b, (_, refl)))
  enter-IsWired false watcher config (false, s) h = (refl, h)

  gate_ok-IsWired :
      (t : Tables) (config : RuntimeConfig) (s : Engine W)
      → IsWired s
      → IsWired (gate_ok m t config s).1
  unfolding gate_ok
  gate_ok-IsWired t config s h = elim (Bool-cases (config.watch_paths == [])) [
    | inl e ↦ rw e h
    | inr e ↦ rw e h
  ]

  -- The start is done, or the snapshot could not be built.
  start_with-IsWired :
      (park : Bool) (t : Tables) (o : Option RuntimeConfig) (s : Engine W)
      → s.started ≡ true
      → (((start_with m park t o s).0 ≡ none) × IsWired (start_with m park t o s).1)
        ⊎ (((start_with m park t o s).0 ≡ some build_error)
            × ((start_with m park t o s).1.started ≡ true))
  start_with-IsWired park t none s h = inr (refl, h)
  start_with-IsWired park t (some config) s h =
      let watcher = watcher_of m s.watcher config in
      let next = wired m config watcher (build_adapters m.registry ([], []) config.servers) s in
      inl (
        enter-IsWired park watcher config (gate_ok m t config next)
          (gate_ok-IsWired t config next (h, (_, refl), (_, refl), (_, refl))))

  begun : Engine W → Engine W
  begun s = record s { started = true; state = starting }

  start-first :
      (park : Bool) (t : Tables) (s : Engine W)
      → s.started ≡ false
      → start m park t s ≡ start_with m park t (build_runtime_config m.lower m.decrypt t) (begun s)
  unfolding start begun
  start-first park t s h = if_false _ _ h

  start-again :
      (park : Bool) (t : Tables) (s : Engine W)
      → s.started ≡ true
      → start m park t s ≡ (some runtime_error, s)
  unfolding start
  start-again park t s h = if_true _ _ h

  start_with-started :
      (park : Bool) (t : Tables) (o : Option RuntimeConfig) (s : Engine W)
      → s.started ≡ true
      → (start_with m park t o s).1.started ≡ true
  start_with-started park t o s h = elim (start_with-IsWired park t o s h) [
    | inl (_, wired) ↦ wired.0
    | inr (_, a) ↦ a
  ]

  start-started : (park : Bool) (t : Tables) (s : Engine W) → (start m park t s).1.started ≡ true
  start-started park t s = elim (Bool-cases s.started) [
    | inl e ↦ ap (λ (p : Option EngineError × Engine W). p.1.started) (start-again park t s e) ∙ e
    | inr e ↦
        ap (λ (p : Option EngineError × Engine W). p.1.started) (start-first park t s e)
        ∙ start_with-started park t (build_runtime_config m.lower m.decrypt t) (begun s)
            (unfold begun in refl)
  ]

  -- An engine starts once: whatever the first `start` did, a second one raises `RuntimeError` and
  -- changes nothing.
  pub start-start :
      (park park' : Bool) (t t' : Tables) (s : Engine W)
      → start m park' t' (start m park t s).1 ≡ (some runtime_error, (start m park t s).1)
  start-start park park' t t' s = start-again park' t' (start m park t s).1 (start-started park t s)

  start-succeeds :
      (park : Bool) (t : Tables) (s : Engine W)
      → s.started ≡ false
      → (start m park t s).0 ≡ none
      → IsWired (start m park t s).1
  start-succeeds park t s h k =
      let q = start-first park t s h in
      elim (start_with-IsWired park t (build_runtime_config m.lower m.decrypt t) (begun s)
        (unfold begun in refl)) [
          | inl (_, a) ↦ subst (λ (p : Option EngineError × Engine W). IsWired p.1) (sym q) a
          | inr (e, _) ↦ absurd (
              ground (arith, sym e ∙ (sym (ap (λ (p : Option EngineError × Engine W). p.0) q) ∙ k)))
        ]

  rebuild_parts-succeeds :
      (t : Tables) (config : RuntimeConfig) (s : Engine W)
      → IsWired s
      → (rebuild_parts m s.dispatcher s.debouncer s.watcher t (some config) s).0 ≡ none
  rebuild_parts-succeeds t config s (a, (_, d), (_, b), (_, w)) = rw (d, b, w) refl

  -- Before the start a rebuild raises `RuntimeError` and changes nothing. After a start that
  -- raised nothing, parked or headless, it raises nothing if the snapshot can be built.
  pub rebuild-start :
      (park : Bool) (t t' : Tables) (s : Engine W) (config : RuntimeConfig)
      → s.started ≡ false
      → (start m park t s).0 ≡ none
      → build_runtime_config m.lower m.decrypt t' ≡ some config
      → (rebuild m t' s ≡ (some runtime_error, s)) × ((rebuild m t' (start m park t s).1).0 ≡ none)
  unfolding rebuild
  rebuild-start park t t' s config h k e =
      let after = start-succeeds park t s h k in
      (
        if_true _ _ (ap not h),
        ap (λ (p : Option EngineError × Engine W). p.0) (if_false _ _ (ap not after.0))
            ∙ (ap
                  (λ (o : Option RuntimeConfig).
                    (rebuild_parts m (start m park t s).1.dispatcher (start m park t s).1.debouncer
                      (start m park t s).1.watcher t' o (start m park t s).1).0)
                  e
                ∙ rebuild_parts-succeeds t' config (start m park t s).1 after),
      )

  -- From a state in which the debouncer is valid, with a snapshot that can be built: after a
  -- rebuild, a server that is not in the new snapshot dispatches nothing any more, whichever of the
  -- tasks that waited for it wake.
  pub rebuild_forgets :
      (t : Tables) (s : Engine W) (dispatcher : Dispatcher) (debouncer : Debouncer) (watcher : W)
      (config : RuntimeConfig)
      → s.started ≡ true
      → s.dispatcher ≡ some dispatcher
      → s.debouncer ≡ some debouncer
      → s.watcher ≡ some watcher
      → build_runtime_config m.lower m.decrypt t ≡ some config
      → IsValid debouncer
      → (k : Key) (ids : List ℕ) → has_key k.0 config.servers ≡ false
      → (next : Debouncer) × ((rebuild m t s).1.debouncer ≡ some next)
        × (dispatched_for k (wake_all ids next) ≡ dispatched_for k debouncer)
  unfolding rebuild
  rebuild_forgets t s dispatcher debouncer watcher config h d b w e v k ids gone = (
    update_servers config.servers debouncer,
    rw (h, d, b, w, e) refl,
    ((update_servers_lem config.servers k ids debouncer v).1 gone).1,
  )
