-- ===== src/Pipeline/Debounce.antt =====
-- mediascanmonitor/pipeline/debounce.py. A timer task is an entry of `tasks` from its creation
-- until it wakes: `wake` is the rest of `_fire_after` when the sleep is over or was cancelled.
-- What `_dispatch` is called with is appended to `dispatched`. The clock is an argument.
pub mod Valid
pub mod Burst
pub mod Submitted
pub mod Update
use syno_plex_change_monitor.Base.{
  ℕ, suc, ◌+◌, Bool, true, false, not, Option, none, some, List, [], ◌∷◌, ◌++◌, ◌==◌, nat_eq,
  list_eq, pair_eq, option_eq, if◌then◌else◌,
}
use syno_plex_change_monitor.Base.Dict.{Dict, keys, values, lookup, has_key, insert, keep, erase}
use syno_plex_change_monitor.Base.Text.{Text}
use syno_plex_change_monitor.Models.{DebounceMode, off, trailing}
use syno_plex_change_monitor.Config.{ServerRuntime}
use syno_plex_change_monitor.Pipeline.Events.{ScanRequest}

abbrev pub Key : Type 0
Key = ℕ × Text

pub record Task : Type 0 where
  pub key : Key
  pub req : ScanRequest
  pub due : ℕ
  pub cancelled : Bool

pub record Debouncer : Type 0 where
  pub servers : Dict ℕ ServerRuntime
  pub timers : Dict Key ℕ
  pub tasks : Dict ℕ Task
  pub next_task : ℕ
  pub dispatched : List ScanRequest

-- `Debouncer(dispatch, servers)`
unfoldable pub create : Dict ℕ ServerRuntime → Debouncer
create servers = record {
  servers = servers;
  timers = [];
  tasks = [];
  next_task = 0;
  dispatched = [];
}

abbrev pub key_of : ScanRequest → Key
key_of req = (req.server_id, req.scan_key)

-- `task.cancel()`: the task sees the cancellation when it next runs.
abbrev pub cancel_found : ℕ → Dict ℕ Task → Option Task → Dict ℕ Task
cancel_found id tasks none = tasks
cancel_found id tasks (some task) = insert id (record task { cancelled = true }) tasks

unfoldable pub cancel : ℕ → Dict ℕ Task → Dict ℕ Task
unfolding insert lookup nat_eq
cancel id tasks = cancel_found id tasks (lookup id tasks)

unfoldable pub cancel_pending : Option ℕ → Dict ℕ Task → Dict ℕ Task
unfolding cancel
cancel_pending none tasks = tasks
cancel_pending (some id) tasks = cancel id tasks

unfoldable pub dispatch_now : ScanRequest → Debouncer → Debouncer
dispatch_now req s = record s { dispatched = s.dispatched ++ (req ∷ []) }

-- Cancel the pending timer of the key and arm a new one.
unfoldable pub arm : ℕ → ScanRequest → Debouncer → Debouncer
unfolding cancel_pending insert lookup nat_eq list_eq pair_eq
arm due req s = record s {
  timers = insert (key_of req) s.next_task s.timers;
  tasks =
      insert s.next_task (record { key = key_of req; req = req; due = due; cancelled = false })
        (cancel_pending (lookup (key_of req) s.timers) s.tasks);
  next_task = suc s.next_task;
}

abbrev pub submit_mode : DebounceMode → ℕ → ScanRequest → Debouncer → Debouncer
submit_mode off due req s = dispatch_now req s
submit_mode trailing due req s = arm due req s

abbrev pub submit_to : Option ServerRuntime → ℕ → ScanRequest → Debouncer → Debouncer
submit_to none now req s = dispatch_now req s
submit_to (some server) now req s =
    submit_mode server.debounce_mode (now + server.debounce_window_seconds) req s

unfoldable pub submit : ℕ → ScanRequest → Debouncer → Debouncer
unfolding dispatch_now arm lookup nat_eq
submit now req s = submit_to (lookup req.server_id s.servers) now req s

-- `self._timers.pop(key, None)`, and the cancellation of what was popped.
unfoldable pub drop_timer : Key → Debouncer → Debouncer
unfolding cancel_pending keep lookup nat_eq list_eq pair_eq
drop_timer key s = record s {
  timers = erase key s.timers;
  tasks = cancel_pending (lookup key s.timers) s.tasks;
}

-- The loop of `update_servers` over the keys that were pending when it began.
unfoldable pub drop_gone : Dict ℕ ServerRuntime → List Key → Debouncer → Debouncer
unfolding drop_timer has_key
drop_gone servers [] s = s
drop_gone servers (key ∷ pending) s =
    drop_gone servers pending (if has_key key.0 servers then s else drop_timer key s)

unfoldable pub update_servers : Dict ℕ ServerRuntime → Debouncer → Debouncer
unfolding drop_gone keys
update_servers servers s = drop_gone servers (keys s.timers) (record s { servers = servers })

-- After the sleep: only the active timer of the key fires.
abbrev pub fire : ℕ → Option Task → Debouncer → Debouncer
fire id none s = s
fire id (some task) s =
    let rest = erase id s.tasks in
    if task.cancelled
    then record s { tasks = rest }
    else if lookup task.key s.timers == some id
    then dispatch_now task.req (record s { tasks = rest; timers = erase task.key s.timers })
    else record s { tasks = rest }

unfoldable pub wake : ℕ → Debouncer → Debouncer
unfolding dispatch_now lookup keep option_eq nat_eq list_eq pair_eq
wake id s = fire id (lookup id s.tasks) s

unfoldable pub cancel_all : List ℕ → Dict ℕ Task → Dict ℕ Task
unfolding cancel
cancel_all [] tasks = tasks
cancel_all (id ∷ ids) tasks = cancel_all ids (cancel id tasks)

unfoldable pub wake_all : List ℕ → Debouncer → Debouncer
unfolding wake
wake_all [] s = s
wake_all (id ∷ ids) s = wake_all ids (wake id s)

-- The timers are cleared and cancelled, and each is awaited until it has returned.
unfoldable pub aclose : Debouncer → Debouncer
unfolding cancel_all wake_all values
aclose s =
    let timers = values s.timers in
    wake_all timers (record s { timers = []; tasks = cancel_all timers s.tasks })
