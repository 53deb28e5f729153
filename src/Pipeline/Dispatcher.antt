-- ===== src/Pipeline/Dispatcher.antt =====
-- mediascanmonitor/pipeline/dispatcher.py. An adapter is what its `trigger` does with a request.
use syno_plex_change_monitor.Base.{
  ℕ, ◌≡◌, refl, ◌≢◌, false, Option, none, some, ◌++◌, nat_eq, arith,
}
use syno_plex_change_monitor.Base.Dict.{Dict, lookup}
use syno_plex_change_monitor.Base.Text.{Text, codes, decimal}
use syno_plex_change_monitor.Pipeline.Events.{ScanRequest}
use syno_plex_change_monitor.Servers.Common.{TriggerResult, Outcome, returned, raised, cancelled}

abbrev pub Adapter : Type 0
Adapter = ScanRequest → Outcome TriggerResult

pub record Dispatcher : Type 0 where
  pub adapters : Dict ℕ Adapter

abbrev pub failure : Text → TriggerResult
failure detail = record { ok = false; status_code = none; detail = detail }

-- `except Exception`: a cancellation is none and goes on.
abbrev isolate : Outcome TriggerResult → Outcome TriggerResult
isolate (returned result) = returned result
isolate (raised error) = returned (failure (codes "adapter raised: " ++ error))
isolate cancelled = cancelled

abbrev dispatch_to : Option Adapter → ScanRequest → Outcome TriggerResult
dispatch_to none req =
    returned (failure (codes "no adapter for server_id=" ++ decimal req.server_id))
dispatch_to (some adapter) req = isolate (adapter req)

unfoldable pub dispatch : ScanRequest → Dispatcher → Outcome TriggerResult
unfolding lookup nat_eq decimal
dispatch req s = dispatch_to (lookup req.server_id s.adapters) req

unfoldable pub set_adapters : Dict ℕ Adapter → Dispatcher → Dispatcher
set_adapters adapters s = record s { adapters = adapters }

-- What comes out of a dispatch, for what the server's adapter does.
abbrev pub DispatchedAs : Option Adapter → ScanRequest → Outcome TriggerResult → Type 0
DispatchedAs none req out =
    out ≡ returned (failure (codes "no adapter for server_id=" ++ decimal req.server_id))
DispatchedAs (some adapter) req out =
    ((result : TriggerResult) → adapter req ≡ returned result → out ≡ returned result)
    × ((error : Text)
        → adapter req ≡ raised error
        → out ≡ returned (failure (codes "adapter raised: " ++ error)))
    × (adapter req ≡ cancelled → out ≡ cancelled)

-- A dispatch never raises: without an adapter, or when the adapter raises, it returns a failed
-- result that says so; a result is passed on as it is, and so is a cancellation.
pub dispatch_lem :
    (req : ScanRequest) (s : Dispatcher)
    → ((error : Text) → dispatch req s ≢ raised error)
      × DispatchedAs (lookup req.server_id s.adapters) req (dispatch req s)
unfolding dispatch
dispatch_lem req s = go (lookup req.server_id s.adapters)
  where
    go :
        (o : Option Adapter)
        → ((error : Text) → dispatch_to o req ≢ raised error)
          × DispatchedAs o req (dispatch_to o req)
    go none = (λ error h. cc, refl)
    go (some adapter) =
        (λ error h. ground arith, (λ result e. rw e refl, λ error e. rw e refl, λ e. rw e refl))
