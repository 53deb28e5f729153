-- ===== src/Pipeline/Debounce/Valid.antt =====
-- The timers and the live tasks of a debouncer belong together, after every operation.
pub mod Wake
use syno_plex_change_monitor.Base.{
  ◌&&◌, ℕ, ◌+◌, ◌<◌, ◌≡◌, ◌≢◌, refl, true, false, not, Option, none, some, List, [], ◌∷◌, arith,
  ◌==◌, nat_eq, list_eq, pair_eq, option_eq, if◌then◌else◌, inl, inr, Bool-cases,
}
use syno_plex_change_monitor.Base.Dict.{Dict, keys, lookup, has_key, lookup-insert, lookup-erase}
use syno_plex_change_monitor.Config.{ServerRuntime}
use syno_plex_change_monitor.Pipeline.Events.{ScanRequest}
use syno_plex_change_monitor.Models.{DebounceMode, off, trailing}
use syno_plex_change_monitor.Pipeline.Debounce.{
  drop_timer, fire, submit_to, submit_mode, Key, key_of, Task, Debouncer, create, cancel,
  cancel_found, cancel_pending, dispatch_now, arm, submit, drop_gone, update_servers, wake,
}

abbrev Timers : Type 0
Timers = Dict Key ℕ

-- A task carries the key of its request and an id already given out, and a live task is the timer
-- of its key; so a key has one live task at most.
abbrev pub TaskIsValid : Timers → ℕ → ℕ → Option Task → Type 0
TaskIsValid timers next id none = Unit
TaskIsValid timers next id (some t) =
    (t.key ≡ key_of t.req) × (id < next) × (t.cancelled ≡ false → lookup t.key timers ≡ some id)

-- A timer is a live task for its key.
abbrev pub IsLiveFor : Key → Option Task → Type 0
IsLiveFor k none = ⊥
IsLiveFor k (some t) = (t.key ≡ k) × (t.cancelled ≡ false)

abbrev pub TimerIsValid : Dict ℕ Task → Key → Option ℕ → Type 0
TimerIsValid tasks k none = Unit
TimerIsValid tasks k (some id) = IsLiveFor k (lookup id tasks)

pub record IsValid (s : Debouncer) : Type 0 where
  pub task : (id : ℕ) → TaskIsValid s.timers s.next_task id (lookup id s.tasks)
  pub timer : (k : Key) → TimerIsValid s.tasks k (lookup k s.timers)

abbrev pub as_cancelled : Option Task → Option Task
as_cancelled none = none
as_cancelled (some t) = some (record t { cancelled = true })

pub lookup-cancel :
    (id j : ℕ) (tasks : Dict ℕ Task)
    → lookup j (cancel id tasks)
      ≡ (if j == id then as_cancelled (lookup j tasks) else lookup j tasks)
unfolding cancel
lookup-cancel id j tasks = go (lookup id tasks) refl
  where
    go :
        (o : Option Task)
        → lookup id tasks ≡ o
        → lookup j (cancel_found id tasks o)
          ≡ (if j == id then as_cancelled (lookup j tasks) else lookup j tasks)
    go none e = ground arith
    go (some t) e = ground (arith, lookup-insert j id (record t { cancelled = true }) tasks)

pub lookup-cancel_pending :
    (p : Option ℕ) (j : ℕ) (tasks : Dict ℕ Task)
    → lookup j (cancel_pending p tasks)
      ≡ (if p == some j then as_cancelled (lookup j tasks) else lookup j tasks)
unfolding cancel_pending
lookup-cancel_pending none j tasks = ground arith
lookup-cancel_pending (some id) j tasks = rw lookup-cancel (ground arith)

pub create-IsValid : (servers : Dict ℕ ServerRuntime) → IsValid (create servers)
unfolding create lookup
create-IsValid servers = record { task = λ id. tt; timer = λ k. tt }

pub dispatch_now-IsValid :
    (req : ScanRequest) {s : Debouncer} → IsValid s → IsValid (dispatch_now req s)
unfolding dispatch_now
dispatch_now-IsValid req v = record { task = v.task; timer = v.timer }

module _ (due : ℕ) (req : ScanRequest) {s : Debouncer} (v : IsValid s) where
  abbrev pub new_task : Task
  new_task = record { key = key_of req; req = req; due = due; cancelled = false }

  pub lookup_armed :
      (j : ℕ)
      → lookup j (arm due req s).tasks ≡ (
          if j == s.next_task
          then some new_task
          else if lookup (key_of req) s.timers == some j
          then as_cancelled (lookup j s.tasks)
          else lookup j s.tasks)
  unfolding arm
  lookup_armed j = rw (lookup-insert, lookup-cancel_pending) refl

  old_task :
      (id : ℕ) (o : Option Task)
      → id ≢ s.next_task
      → TaskIsValid s.timers s.next_task id o
      → TaskIsValid
          (arm due req s).timers
          (arm due req s).next_task
          id
          (if lookup (key_of req) s.timers == some id then as_cancelled o else o)
  unfolding arm
  old_task id none n h = ground arith
  old_task id (some t) n h = ground (arith, lookup-insert t.key (key_of req) s.next_task s.timers)

  armed_task :
      (id : ℕ)
      → TaskIsValid
          (arm due req s).timers
          (arm due req s).next_task
          id
          (lookup id (arm due req s).tasks)
  armed_task id = elim (nat_eq.dec id s.next_task) [
    | yes e ↦
        rw (lookup_armed id) (
          unfold arm in
          ground (arith, lookup-insert (key_of req) (key_of req) s.next_task s.timers))
    | no n ↦ rw (lookup_armed id) (ground (arith, old_task id (lookup id s.tasks) n (v.task id)))
  ]

  old_timer :
      (k : Key) (p : Option ℕ)
      → k ≢ key_of req
      → lookup k s.timers ≡ p
      → TimerIsValid (arm due req s).tasks k p
  old_timer k none n e = tt
  old_timer k (some id) n e =
      rw (lookup_armed id) (ground (arith, v.timer k, v.timer (key_of req), v.task id))

  pub lookup_timers :
      (k : Key)
      → lookup k (arm due req s).timers
        ≡ (if k == key_of req then some s.next_task else lookup k s.timers)
  unfolding arm
  lookup_timers k = lookup-insert k (key_of req) s.next_task s.timers

  armed_timer : (k : Key) → TimerIsValid (arm due req s).tasks k (lookup k (arm due req s).timers)
  armed_timer k = elim (pair_eq.dec k (key_of req)) [
    | yes e ↦ rw (lookup_timers k) (ground (arith, lookup_armed s.next_task))
    | no n ↦ rw (lookup_timers k) (ground (arith, old_timer k (lookup k s.timers) n refl))
  ]

  pub arm-IsValid : IsValid (arm due req s)
  arm-IsValid = record { task = armed_task; timer = armed_timer }

module _ (now : ℕ) (req : ScanRequest) {s : Debouncer} (v : IsValid s) where
  submit_to-IsValid : (o : Option ServerRuntime) → IsValid (submit_to o now req s)
  submit_to-IsValid none = dispatch_now-IsValid req v
  submit_to-IsValid (some server) = mode server.debounce_mode
    where
      mode :
          (m : DebounceMode) → IsValid (submit_mode m (now + server.debounce_window_seconds) req s)
      mode off = dispatch_now-IsValid req v
      mode trailing = arm-IsValid _ req v

  pub submit-IsValid : IsValid (submit now req s)
  unfolding submit
  submit-IsValid = submit_to-IsValid (lookup req.server_id s.servers)

module _ (key : Key) {s : Debouncer} (v : IsValid s) where
  lookup_cancelled :
      (j : ℕ)
      → lookup j (drop_timer key s).tasks ≡ (
          if lookup key s.timers == some j
          then as_cancelled (lookup j s.tasks)
          else lookup j s.tasks)
  unfolding drop_timer
  lookup_cancelled j = lookup-cancel_pending (lookup key s.timers) j s.tasks

  kept_task :
      (id : ℕ) (o : Option Task)
      → TaskIsValid s.timers s.next_task id o
      → TaskIsValid
          (drop_timer key s).timers
          (drop_timer key s).next_task
          id
          (if lookup key s.timers == some id then as_cancelled o else o)
  unfolding drop_timer
  kept_task id none h = ground arith
  kept_task id (some t) h = ground (arith, lookup-erase t.key key s.timers)

  kept_timer :
      (k : Key) (p : Option ℕ)
      → k ≢ key
      → lookup k s.timers ≡ p
      → TimerIsValid (drop_timer key s).tasks k p
  kept_timer k none n e = tt
  kept_timer k (some id) n e =
      rw (lookup_cancelled id) (ground (arith, v.timer k, v.timer key, v.task id))

  lookup_erased :
      (k : Key)
      → lookup k (drop_timer key s).timers ≡ (if key == k then none else lookup k s.timers)
  unfolding drop_timer
  lookup_erased k = lookup-erase k key s.timers

  pub drop_timer-IsValid : IsValid (drop_timer key s)
  drop_timer-IsValid = record {
    task = λ id. rw (lookup_cancelled id) (kept_task id (lookup id s.tasks) (v.task id));
    timer = λ k. elim (pair_eq.dec k key) [
      | yes e ↦ rw (lookup_erased k) (ground arith)
      | no n ↦ rw (lookup_erased k) (ground (arith, kept_timer k (lookup k s.timers) n refl))
    ];
  }

drop_gone-IsValid :
    (servers : Dict ℕ ServerRuntime) (pending : List Key) {s : Debouncer}
    → IsValid s
    → IsValid (drop_gone servers pending s)
unfolding drop_gone
drop_gone-IsValid servers [] v = v
drop_gone-IsValid servers (key ∷ pending) {s} v = elim (Bool-cases (has_key key.0 servers)) [
  | inl e ↦ rw e (drop_gone-IsValid servers pending v)
  | inr e ↦ rw e (drop_gone-IsValid servers pending (drop_timer-IsValid key v))
]

pub update_servers-IsValid :
    (servers : Dict ℕ ServerRuntime) {s : Debouncer}
    → IsValid s
    → IsValid (update_servers servers s)
unfolding update_servers
update_servers-IsValid servers {s} v =
    drop_gone-IsValid servers (keys s.timers) (record { task = v.task; timer = v.timer })
