-- ===== src/Pipeline/Debounce/Valid/Wake.antt =====
-- A timer that wakes keeps the timers and the live tasks together.
use syno_plex_change_monitor.Pipeline.Debounce.Valid.{IsValid, TaskIsValid, TimerIsValid}
use syno_plex_change_monitor.Base.{
  ◌&&◌, ℕ, ◌≡◌, ◌≢◌, refl, not, Option, none, some, arith, ◌==◌, nat_eq, list_eq, pair_eq,
  option_eq, if◌then◌else◌,
}
use syno_plex_change_monitor.Base.Dict.{lookup, lookup-erase}
use syno_plex_change_monitor.Pipeline.Debounce.{fire, Key, Task, Debouncer, dispatch_now, wake}

module _ (id : ℕ) {s : Debouncer} (v : IsValid s) where
  woken_task :
      (task : Task) (j : ℕ) (o : Option Task)
      → lookup id s.tasks ≡ some task
      → TaskIsValid s.timers s.next_task j o
      → (id ≢ j)
      → TaskIsValid (fire id (some task) s).timers (fire id (some task) s).next_task j o
  woken_task task j none e h n = tt
  woken_task task j (some t) e h n =
      unfold dispatch_now in ground (arith, lookup-erase t.key task.key s.timers)

  pub lookup-fire_tasks :
      (task : Task) (j : ℕ)
      → lookup j (fire id (some task) s).tasks ≡ (if id == j then none else lookup j s.tasks)
  lookup-fire_tasks task j = unfold dispatch_now in ground (arith, lookup-erase j id s.tasks)

  pub lookup-fire_timers :
      (task : Task) (k : Key)
      → lookup k (fire id (some task) s).timers ≡ (
          if not task.cancelled && lookup task.key s.timers == some id && task.key == k
          then none
          else lookup k s.timers)
  lookup-fire_timers task k =
      unfold dispatch_now in ground (arith, lookup-erase k task.key s.timers)

  woken_timer :
      (task : Task) (k : Key) (p : Option ℕ)
      → lookup id s.tasks ≡ some task
      → lookup k (fire id (some task) s).timers ≡ p
      → TimerIsValid (fire id (some task) s).tasks k p
  woken_timer task k none e h = tt
  woken_timer task k (some j) e h =
      rw (lookup-fire_tasks task j)
        (ground (arith, lookup-fire_timers task k, v.timer k, v.timer task.key, v.task id))

  fire-IsValid : (o : Option Task) → lookup id s.tasks ≡ o → IsValid (fire id o s)
  fire-IsValid none e = v
  fire-IsValid (some task) e = record {
    task = λ j. elim (nat_eq.dec id j) [
      | yes q ↦ rw (lookup-fire_tasks task j) (ground arith)
      | no n ↦
          rw (lookup-fire_tasks task j)
            (ground (arith, woken_task task j (lookup j s.tasks) e (v.task j) n))
    ];
    timer = λ k. woken_timer task k (lookup k (fire id (some task) s).timers) e refl;
  }

  pub wake-IsValid : IsValid (wake id s)
  unfolding wake
  wake-IsValid = fire-IsValid (lookup id s.tasks) refl
