-- ===== src/Web/RateLimit.antt =====
-- mediascanmonitor/web/ratelimit.py. Times are numbers of clock ticks; each call of the injected
-- clock is an argument.
pub mod History
use syno_plex_change_monitor.Base.{
  ℕ, ◌+◌, Bool, true, false, not, Option, none, some, List, [], ◌∷◌, ◌++◌, ltb, if◌then◌else◌,
  nat_eq, list_eq, ◌==◌,
}
use syno_plex_change_monitor.Base.Dict.{Dict, lookup, insert, erase, keep}
use syno_plex_change_monitor.Base.Lists.{length, filter}
use syno_plex_change_monitor.Base.Text.{Text}

pub record LoginRateLimiter : Type 0 where
  pub max_attempts : ℕ
  pub window : ℕ
  pub failures : Dict Text (List ℕ)

unfoldable pub create : ℕ → ℕ → LoginRateLimiter
create max_attempts window = record { max_attempts = max_attempts; window = window; failures = [] }

abbrev pub or_empty : Option (List ℕ) → List ℕ
or_empty none = []
or_empty (some times) = times

-- `self._failures.get(key, [])`
unfoldable pub failures_of : Text → LoginRateLimiter → List ℕ
unfolding lookup list_eq nat_eq
failures_of key s = or_empty (lookup key s.failures)

-- `t > now - window`, with no subtraction.
abbrev pub in_window : ℕ → ℕ → ℕ → Bool
in_window window now t = ltb now (t + window)

abbrev store_recent : Text → List ℕ → LoginRateLimiter → LoginRateLimiter
store_recent key [] s = record s { failures = erase key s.failures }
store_recent key (t ∷ times) s = record s { failures = insert key (t ∷ times) s.failures }

-- The limiter afterwards, and the recent failures.
unfoldable pub prune : ℕ → Text → LoginRateLimiter → LoginRateLimiter × List ℕ
unfolding failures_of insert keep
prune now key s =
    let recent = filter (in_window s.window now) (failures_of key s) in
    (store_recent key recent s, recent)

unfoldable pub allowed : ℕ → Text → LoginRateLimiter → LoginRateLimiter × Bool
unfolding prune
allowed now key s = let (s', recent) = prune now key s in (s', ltb (length recent) s.max_attempts)

-- The clock is read in `_prune`, and again for the time that is appended.
unfoldable pub record_failure : ℕ → ℕ → Text → LoginRateLimiter → LoginRateLimiter
unfolding prune
record_failure now later key s =
    let (s', recent) = prune now key s in
    record s' { failures = insert key (recent ++ (later ∷ [])) s'.failures }

unfoldable pub reset : Text → LoginRateLimiter → LoginRateLimiter
unfolding keep list_eq nat_eq
reset key s = record s { failures = erase key s.failures }
