-- ===== src/Pipeline/Debounce/Burst.antt =====
-- A burst of requests for one key is dispatched once, as its last request.
use syno_plex_change_monitor.Base.{
  ℕ, ◌+◌, ◌≡◌, refl, ap, ◌∙◌, false, Option, none, some, List, [], ◌∷◌, ◌++◌, arith, ◌==◌, nat_eq,
  list_eq, pair_eq, option_eq, if◌then◌else◌, contains,
}
use mathlib.Core.List.{append-nil}
use syno_plex_change_monitor.Base.Lists.{filter, filter-append, All}
use syno_plex_change_monitor.Base.Dict.{lookup}
use syno_plex_change_monitor.Models.{trailing}
use syno_plex_change_monitor.Config.{ServerRuntime}
use syno_plex_change_monitor.Pipeline.Events.{ScanRequest}
use syno_plex_change_monitor.Pipeline.Debounce.{
  Key, key_of, Task, Debouncer, dispatch_now, arm, submit, fire, wake, wake_all,
}
use syno_plex_change_monitor.Pipeline.Debounce.Valid.{
  IsValid, submit-IsValid, lookup_timers, lookup_armed,
}
use syno_plex_change_monitor.Pipeline.Debounce.Valid.Wake.{
  wake-IsValid, lookup-fire_timers, lookup-fire_tasks,
}

unfoldable pub submit_all : List (ℕ × ScanRequest) → Debouncer → Debouncer
unfolding submit
submit_all [] s = s
submit_all ((now, req) ∷ reqs) s = submit_all reqs (submit now req s)

module _ (k : Key) where
  -- What was dispatched for the key.
  abbrev pub dispatched_for : Debouncer → List ScanRequest
  dispatched_for s = filter (λ req. key_of req == k) s.dispatched

  -- The request that the active timer of the key carries, if that timer has the id.
  abbrev pub fired : ℕ → Option ℕ → Option Task → List ScanRequest
  fired id (some j) (some task) = if id == j then task.req ∷ [] else []
  fired id _ _ = []

  module _ (id : ℕ) {s : Debouncer} (v : IsValid s) where
    dispatched-fire :
        (o : Option Task)
        → lookup id s.tasks ≡ o
        → dispatched_for (fire id o s) ≡ dispatched_for s ++ fired id (lookup k s.timers) o
    dispatched-fire none e = ground (arith, append-nil (dispatched_for s))
    dispatched-fire (some task) e =
        unfold dispatch_now in
        ground (
          arith,
          append-nil (dispatched_for s),
          filter-append (λ req. key_of req == k) s.dispatched (task.req ∷ []),
          v.task id,
          v.timer k,
        )

    pub dispatched-wake :
        dispatched_for (wake id s)
        ≡ dispatched_for s ++ fired id (lookup k s.timers) (lookup id s.tasks)
    unfolding wake
    dispatched-wake = dispatched-fire (lookup id s.tasks) refl

    timer-fire :
        (o : Option Task)
        → lookup id s.tasks ≡ o
        → lookup k (fire id o s).timers
          ≡ (if lookup k s.timers == some id then none else lookup k s.timers)
    timer-fire none e = ground (arith, v.timer k)
    timer-fire (some task) e =
        rw (lookup-fire_timers id v task k) (ground (arith, v.timer k, v.task id))

    pub timer-wake :
        lookup k (wake id s).timers
        ≡ (if lookup k s.timers == some id then none else lookup k s.timers)
    unfolding wake
    timer-wake = timer-fire (lookup id s.tasks) refl

    tasks-fire :
        (o : Option Task) (j : ℕ)
        → lookup id s.tasks ≡ o
        → lookup j (fire id o s).tasks ≡ (if id == j then none else lookup j s.tasks)
    tasks-fire none j e = ground arith
    tasks-fire (some task) j e = lookup-fire_tasks id v task j

    tasks-wake : (j : ℕ) → lookup j (wake id s).tasks ≡ (if id == j then none else lookup j s.tasks)
    unfolding wake
    tasks-wake j = tasks-fire (lookup id s.tasks) j refl

  pub wake_all_quiet :
      (ids : List ℕ) (s : Debouncer)
      → IsValid s
      → lookup k s.timers ≡ none
      → dispatched_for (wake_all ids s) ≡ dispatched_for s
  unfolding wake_all
  wake_all_quiet [] s v e = refl
  wake_all_quiet (id ∷ ids) s v e =
      wake_all_quiet ids (wake id s) (wake-IsValid id v) (ground (arith, timer-wake id v))
      ∙ ground (arith, dispatched-wake id v, append-nil (dispatched_for s))

  wake_all_armed :
      (ids : List ℕ) (s : Debouncer) (n : ℕ) (task : Task)
      → IsValid s
      → lookup k s.timers ≡ some n
      → lookup n s.tasks ≡ some task
      → dispatched_for (wake_all ids s)
        ≡ dispatched_for s ++ (if contains ids n then task.req ∷ [] else [])
  unfolding wake_all
  wake_all_armed [] s n task v e f = ground (arith, append-nil (dispatched_for s))
  wake_all_armed (id ∷ ids) s n task v e f = elim (nat_eq.dec n id) [
    | yes q ↦
        wake_all_quiet ids (wake id s) (wake-IsValid id v) (ground (arith, timer-wake id v))
        ∙ ground (arith, dispatched-wake id v)
    | no q ↦
        wake_all_armed ids (wake id s) n task (wake-IsValid id v) (ground (arith, timer-wake id v))
          (ground (arith, tasks-wake id v n))
        ∙ ground (arith, dispatched-wake id v, append-nil (dispatched_for s))
  ]

  module _ (server : ServerRuntime) (trails : server.debounce_mode ≡ trailing) where
    -- The key's server is known and debounces.
    abbrev pub IsWatched : Debouncer → Type 0
    IsWatched s = lookup k.0 s.servers ≡ some server

    abbrev pub due_at : ℕ → ℕ
    due_at now = now + server.debounce_window_seconds

    submit-eq-arm :
        (now : ℕ) (req : ScanRequest) (s : Debouncer)
        → IsWatched s
        → key_of req ≡ k
        → submit now req s ≡ arm (due_at now) req s
    unfolding submit
    submit-eq-arm now req s w e =
        let f : req.server_id ≡ k.0 = ap (λ (x : Key). x.0) e in rw (f, w, trails) refl

    submit_all_quiet :
        (burst : List (ℕ × ScanRequest)) (s : Debouncer)
        → All (λ x. key_of x.1 ≡ k) burst
        → IsValid s
        → IsWatched s
        → IsValid (submit_all burst s)
          × IsWatched (submit_all burst s)
          × (dispatched_for (submit_all burst s) ≡ dispatched_for s)
    unfolding submit_all
    submit_all_quiet [] s h v w = (v, w, refl)
    submit_all_quiet ((now, req) ∷ burst) s (e, h) v w =
        let armed = submit-eq-arm now req s w e in
        let (v', w', d) =
          submit_all_quiet burst (submit now req s) h (submit-IsValid now req v)
            (ap (λ (t : Debouncer). lookup k.0 t.servers) armed ∙ (unfold arm in w)) in
        (v', w', d ∙ ap dispatched_for armed ∙ (unfold arm in refl))

    -- From a valid state in which the key's server is known and in trailing mode: after a burst
    -- of requests for the key, the last of them at time `now`, exactly one timer of the key is
    -- armed, it carries the last request, and it is due one window after `now`. Whichever tasks
    -- then wake, in any order and also more than once, the last request is dispatched for the
    -- key once if that timer is among them, and nothing is if it is not.
    pub burst_fires_once :
        (burst : List (ℕ × ScanRequest)) (now : ℕ) (last : ScanRequest) (ids : List ℕ)
        (s : Debouncer)
        → IsValid s
        → IsWatched s
        → All (λ x. key_of x.1 ≡ k) burst
        → key_of last ≡ k
        → let before = submit_all burst s in
          let after = submit now last before in
          let timer = before.next_task in
          (lookup k after.timers ≡ some timer)
          × (lookup timer after.tasks
              ≡ some (record { key = k; req = last; due = due_at now; cancelled = false }))
          × (dispatched_for (wake_all ids after)
              ≡ dispatched_for s ++ (if contains ids timer then last ∷ [] else []))
    burst_fires_once burst now last ids s v w h e =
        let (v1, w1, d1) = submit_all_quiet burst s h v w in
        let before = submit_all burst s in
        let armed = submit-eq-arm now last before w1 e in
        let timer : lookup k (submit now last before).timers ≡ some before.next_task =
          ap (λ (t : Debouncer). lookup k t.timers) armed
          ∙ ground (arith, lookup_timers (due_at now) last v1 k) in
        let task : lookup before.next_task (submit now last before).tasks
            ≡ some (record { key = k; req = last; due = due_at now; cancelled = false }) =
          ap (λ (t : Debouncer). lookup before.next_task t.tasks) armed
          ∙ ground (arith, lookup_armed (due_at now) last v1 before.next_task) in
        let quiet : dispatched_for (submit now last before) ≡ dispatched_for s =
          ap dispatched_for armed ∙ (unfold arm in d1) in
        (
          timer,
          task,
          wake_all_armed ids (submit now last before) before.next_task _
                (submit-IsValid now last v1) timer task
              ∙ ap
                  (λ (l : List ScanRequest).
                    l ++ (if contains ids before.next_task then last ∷ [] else []))
                  quiet,
        )
