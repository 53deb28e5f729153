-- ===== src/Tests/Signing.antt =====
-- Runs of the password handlers.
use syno_plex_change_monitor.Base.{
  ◌≢◌, ◌≡◌, refl, Bool, true, false, none, some, [], ◌∷◌, ◌++◌, ◌==◌, ◌⊎◌, nat_eq, list_eq, eq_self,
}
use syno_plex_change_monitor.Base.Text.{strip, Text, codes, is_space}
use syno_plex_change_monitor.Db.Tables.{empty}
use syno_plex_change_monitor.Db.Crypto.{load_or_create_key, load_or_create_key-again}
use syno_plex_change_monitor.Web.RateLimit.{create}
use syno_plex_change_monitor.Web.Auth.{
  Site, written, check_password, login, change_password, reset_password, require_api_auth,
  require_page_auth, passed, forbidden, redirect_home, redirect_reset, redirect_setup, bad_request,
  too_many_requests, server_error,
}
use syno_plex_change_monitor.Web.Auth.Access.{InForce, change_password_lem, reset_password_lem}

-- A hashing that serves the runs: a mark before the password.
abbrev hashed : Text → Text
hashed password = b'#' ∷ password

abbrev verified : Text → Text → Bool
verified stored password = stored == hashed password

verified-hashed : (password : Text) → verified (hashed password) password ≡ true
verified-hashed password = eq_self (hashed password)

abbrev pub fresh_site : Site
fresh_site = record {
  tables = empty;
  initial_file = none;
  authed = false;
  limiter = create 5 300;
  reset_limiter = create 5 300;
}

abbrev pub site : Site
site = record fresh_site {
  tables = record empty { settings = (codes "password_hash", codes "#old") ∷ [] };
  authed = true;
}

change_password_lem_example :
    let (answer, next) =
      change_password hashed verified true (codes "old") (codes "new") (codes "new") site in
    ((answer ≡ redirect_home)
      × (check_password hashed verified (codes "old") site.tables ≡ true)
      × (strip is_space (codes "new") ≢ [])
      × (codes "new" ≡ codes "new")
      × InForce hashed verified (codes "new") false next.tables
      × (require_api_auth next ≡ passed))
    ⊎ ((answer ≡ bad_request)
        × (next ≡ site)
        × ((check_password hashed verified (codes "old") site.tables ≡ false)
            ⊎ ((strip is_space (codes "new") ≡ []) ⊎ (codes "new" ≢ codes "new"))))
change_password_lem_example =
    change_password_lem hashed verified verified-hashed true (codes "old") (codes "new")
      (codes "new") site refl

change_password_run :
    ((change_password hashed verified true (codes "old") (codes "new") (codes "new") site).0
      ≡ redirect_home)
    × ((change_password hashed verified true (codes "old") (codes " ") (codes " ") site).0
        ≡ bad_request)
    × ((login hashed verified 1 1 1 (codes "ip") (codes "old") site).0 ≡ redirect_home)
    × (require_page_auth (codes "/") fresh_site ≡ redirect_setup)
unfolding change_password login require_page_auth is_space create
change_password_run = (refl, refl, refl, refl)

reset_password_lem_example :
    let (answer, next) =
      reset_password hashed verified 1 1 1 (codes "ip") written (codes "gen") site in
    ((answer ≡ too_many_requests)
      × (next.tables ≡ site.tables)
      × (next.initial_file ≡ site.initial_file))
    ⊎ (((answer ≡ server_error) × (next.tables ≡ site.tables) × (written ≢ written))
        ⊎ ((answer ≡ redirect_reset)
            × InForce hashed verified (codes "gen") true next.tables
            × (next.initial_file ≡ some (codes "gen" ++ b'\n' ∷ []))
            × (require_api_auth (record next { authed = true }) ≡ forbidden)))
reset_password_lem_example =
    reset_password_lem hashed verified verified-hashed 1 1 1 (codes "ip") written (codes "gen") site

load_or_create_key-again_example :
    load_or_create_key false (codes "other") none (some (codes "key"))
    ≡ some (record { key = codes "key"; file = some (codes "key") })
unfolding load_or_create_key nat_eq
load_or_create_key-again_example =
    load_or_create_key-again true false (codes "key") (codes "other") none
      (record { key = codes "key"; file = some (codes "key") }) refl refl
