-- ===== src/Tests/Limiting.antt =====
-- Runs of the login limiter.
use syno_plex_change_monitor.Base.{◌≡◌, refl, true, false, List, [], ◌∷◌, arith, ltb}
use syno_plex_change_monitor.Base.Lists.{length, filter}
use syno_plex_change_monitor.Base.Text.{Text, codes}
use syno_plex_change_monitor.Web.RateLimit.{create, allowed, in_window}
use syno_plex_change_monitor.Web.RateLimit.History.{
  Call, check, fail, perform_all, failures_since, allowed-perform_all,
}

abbrev host : Text
host = codes "10.0.0.1"

abbrev calls : List Call
calls = fail host 10 10 ∷ fail (codes "other") 11 11 ∷ check host 12 ∷ fail host 20 21 ∷ []

allowed-perform_all_example :
    (allowed 200 host (perform_all calls (create 2 300))).1
    ≡ ltb (length (filter (in_window 300 200) (failures_since host [] calls))) 2
allowed-perform_all_example = allowed-perform_all host 200 2 300 calls 0 (omega arith)

allowed_run :
    ((allowed 200 host (perform_all calls (create 2 300))).1 ≡ false)
    × ((allowed 310 host (perform_all calls (create 2 300))).1 ≡ true)
unfolding allowed perform_all create
allowed_run = (refl, refl)
