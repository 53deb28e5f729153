-- ===== src/Observ/EventsBus.antt =====
-- mediascanmonitor/observ/events_bus.py. `EventsBus` and `RawEventsBus` have the same methods over
-- different records, so both are this bus at their record type.
pub mod Window
use syno_plex_change_monitor.Base.{
  ℕ, zero, suc, ◌+◌, ◌-◌, Bool, true, false, Option, none, some, List, [], ◌∷◌, ◌++◌, map,
  if◌then◌else◌, leb, ltb, nat_eq,
}
use syno_plex_change_monitor.Base.Dict.{Dict, lookup, insert, erase, keep}
use syno_plex_change_monitor.Base.Lists.{length, drop}
use syno_plex_change_monitor.Base.Text.{Text}

pub record EventRecord : Type 0 where
  pub ts : Text
  pub server_id : ℕ
  pub server_name : Text
  pub scan_mode : Text
  pub scan_key : Text
  pub scan_path : Option Text
  pub library_id : Option Text
  pub event_type : Text
  pub file_path : Text
  pub ok : Bool
  pub status_code : Option ℕ
  pub detail : Text

pub record RawEventRecord : Type 0 where
  pub ts : Text
  pub event_type : Text
  pub path : Text
  pub is_dir : Bool
  pub matched : Bool

-- `_SUBSCRIBER_QUEUE_MAXSIZE`
abbrev pub queue_maxsize : ℕ
queue_maxsize = 100

module _ {R : Type 0} where
  -- `deque.append` of a deque with `maxlen`: the oldest item goes when it is full.
  unfoldable pub append_bounded : ℕ → List R → R → List R
  append_bounded capacity buffer r =
      let longer = buffer ++ (r ∷ []) in drop (length longer - capacity) longer

  -- Drop the oldest queued record of a full queue, then put the new one.
  unfoldable pub offer : R → List R → List R
  offer r queue = (if leb queue_maxsize (length queue) then drop 1 queue else queue) ++ (r ∷ [])

-- The subscribers' queues, by the number of the subscription.
pub record Bus (R : Type 0) : Type 0 where
  pub capacity : ℕ
  pub buffer : List R
  pub subscribers : Dict ℕ (List R)

module _ {R : Type 0} where
  unfoldable pub create : ℕ → Bus R
  create capacity = record { capacity = capacity; buffer = []; subscribers = [] }

  unfoldable pub offer_all : R → Dict ℕ (List R) → Dict ℕ (List R)
  unfolding offer
  offer_all r [] = []
  offer_all r ((id, queue) ∷ subscribers) = (id, offer r queue) ∷ offer_all r subscribers

  unfoldable pub publish : R → Bus R → Bus R
  unfolding append_bounded offer_all
  publish r bus = record bus {
    buffer = append_bounded bus.capacity bus.buffer r;
    subscribers = offer_all r bus.subscribers;
  }

  -- `records[-limit:]`, and nothing for a limit that is not positive.
  unfoldable pub recent : ℕ → Bus R → List R
  recent zero bus = []
  recent (suc limit) bus = drop (length bus.buffer - suc limit) bus.buffer

  -- The start of `subscribe`, one `queue.get()` that need not wait, and its end.
  unfoldable pub subscribe : ℕ → Bus R → Bus R
  unfolding insert nat_eq
  subscribe id bus = record bus { subscribers = insert id [] bus.subscribers }

  abbrev take_first : ℕ → Bus R → Option (List R) → Option R × Bus R
  take_first id bus (some (r ∷ queue)) =
      (some r, record bus { subscribers = insert id queue bus.subscribers })
  take_first id bus _ = (none, bus)

  unfoldable pub next_record : ℕ → Bus R → Option R × Bus R
  unfolding lookup insert nat_eq
  next_record id bus = take_first id bus (lookup id bus.subscribers)

  unfoldable pub unsubscribe : ℕ → Bus R → Bus R
  unfolding keep nat_eq
  unsubscribe id bus = record bus { subscribers = erase id bus.subscribers }
