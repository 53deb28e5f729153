-- ===== src/Web/Auth.antt =====
-- mediascanmonitor/web/auth.py and the guards of web/deps.py. Parameters: Argon2's hashing and
-- verification, and the password that `secrets.token_urlsafe` gives. Of the file system there is
-- the content of the initial-password file, `none` where it is not there.
pub mod Access
use syno_plex_change_monitor.Base.{
  ℕ, Bool, true, false, not, ◌&&◌, ◌||◌, Option, none, some, List, [], ◌∷◌, ◌++◌, ◌==◌, nat_eq,
  list_eq, option_eq, if◌then◌else◌,
}
use syno_plex_change_monitor.Base.Lists.{any}
use syno_plex_change_monitor.Base.Text.{Text, codes, slash, strip, is_space, starts_with}
use syno_plex_change_monitor.Db.Tables.{Tables}
use syno_plex_change_monitor.Db.Repo.{get_setting, set_setting}
use syno_plex_change_monitor.Web.RateLimit.{LoginRateLimiter, allowed, record_failure, reset}

-- What the handlers change: the tables, the initial-password file, and the browser's session.
pub record Site : Type 0 where
  pub tables : Tables
  pub initial_file : Option Text
  pub authed : Bool
  pub limiter : LoginRateLimiter
  pub reset_limiter : LoginRateLimiter

abbrev pub password_hash_key : Text
password_hash_key = codes "password_hash"

abbrev pub must_change_key : Text
must_change_key = codes "must_change_password"

abbrev pub is_some : Option Text → Bool
is_some none = false
is_some (some value) = true

unfoldable pub is_password_set : Tables → Bool
unfolding get_setting
is_password_set t = is_some (get_setting password_hash_key t)

unfoldable pub is_must_change : Tables → Bool
unfolding get_setting option_eq list_eq nat_eq
is_must_change t = get_setting must_change_key t == some (codes "1")

-- The responses by their status; a page with an error message is not told from another.
pub data Answer : Type 0 where
  passed redirect_home redirect_login redirect_setup redirect_reset redirect_change : Answer
  unauthorized forbidden bad_request too_many_requests server_error : Answer

-- How the write of the initial-password file ends: with the content written, or with an `OSError`
-- after which the file is as it was, cut or gone (`none`), or the new content is there but `chmod`
-- failed.
pub data FileWrite : Type 0 where
  written : FileWrite
  failed : Option Text → FileWrite

module _ (hash_password : Text → Text) (verify : Text → Text → Bool) where
  unfoldable pub set_password : Text → Tables → Tables
  unfolding set_setting
  set_password password t = set_setting password_hash_key (hash_password password) t

  abbrev verify_stored : Option Text → Text → Bool
  verify_stored none password = false
  verify_stored (some stored) password = verify stored password

  unfoldable pub check_password : Text → Tables → Bool
  unfolding get_setting
  check_password password t = verify_stored (get_setting password_hash_key t) password

  -- `_generate_and_store`, with whether it returns: the error of a write that fails is raised, and
  -- nothing is stored.
  unfoldable pub generate_and_store : FileWrite → Text → Site → Bool × Site
  unfolding set_password set_setting
  generate_and_store written generated s = (
    true,
    record s {
      initial_file = some (generated ++ b'\n' ∷ []);
      tables = set_password generated (set_setting must_change_key (codes "1") s.tables);
    },
  )
  generate_and_store (failed file) generated s = (false, record s { initial_file = file })

  -- `clear_initial_password`: the file goes if it can be removed.
  unfoldable pub clear_initial_password : Bool → Site → Site
  unfolding set_setting
  clear_initial_password can_remove s = record s {
    tables = set_setting must_change_key (codes "0") s.tables;
    initial_file = if can_remove then none else s.initial_file;
  }

  -- `value = _read_secret_file(file_path)`; `none` stands for an `OSError` or a path not given.
  abbrev from_file : Option Text → Text
  from_file none = []
  from_file (some content) = strip is_space content

  abbrev from_environment : Text → Option Text → Text
  from_environment [] none = []
  from_environment [] (some value) = strip is_space value
  from_environment (c ∷ value) _ = c ∷ value

  abbrev seed : Text → FileWrite → Text → Site → Bool × Site
  seed [] write generated s = generate_and_store write generated s
  seed (c ∷ value) write generated s =
      (true, record s { tables = set_password (c ∷ value) s.tables })

  -- `bootstrap_password`, for the content of `MSM_PASSWORD_FILE` and for `MSM_PASSWORD`, with
  -- whether it returns.
  unfoldable pub bootstrap_password :
      Option Text → Option Text → FileWrite → Text → Site → Bool × Site
  unfolding is_password_set set_password generate_and_store strip
  bootstrap_password file env write generated s =
      if is_password_set s.tables
      then (true, s)
      else seed (from_environment (from_file file) env) write generated s

  -- `POST /auth/login` from an address, with the three readings of the clock that the limiter
  -- takes.
  unfoldable pub login : ℕ → ℕ → ℕ → Text → Text → Site → Answer × Site
  unfolding check_password allowed record_failure reset
  login now later last key password s =
      let (limiter, ok) = allowed now key s.limiter in
      if not ok
      then (too_many_requests, record s { limiter = limiter })
      else if check_password password s.tables
      then (redirect_home, record s { limiter = reset key limiter; authed = true })
      else (unauthorized, record s { limiter = record_failure later last key limiter })

  -- `POST /auth/logout`
  unfoldable pub logout : Site → Answer × Site
  logout s = (redirect_login, record s { authed = false })

  abbrev after_reset : LoginRateLimiter → Bool × Site → Answer × Site
  after_reset limiter (returns, s) =
      (if returns then redirect_reset else server_error, record s { reset_limiter = limiter })

  -- `POST /auth/reset-password`, which asks for no session.
  unfoldable pub reset_password : ℕ → ℕ → ℕ → Text → FileWrite → Text → Site → Answer × Site
  unfolding generate_and_store allowed record_failure
  reset_password now later last key write generated s =
      let (limiter, ok) = allowed now key s.reset_limiter in
      if not ok
      then (too_many_requests, record s { reset_limiter = limiter })
      else after_reset (record_failure later last key limiter)
          (generate_and_store write generated s)

  -- `POST /account/password`
  unfoldable pub change_password : Bool → Text → Text → Text → Site → Answer × Site
  unfolding check_password set_password clear_initial_password strip list_eq nat_eq
  change_password can_remove current_password new_password confirm_password s =
      if not (check_password current_password s.tables)
      then (bad_request, s)
      else if strip is_space new_password == []
      then (bad_request, s)
      else if not (new_password == confirm_password)
      then (bad_request, s)
      else (
        redirect_home,
        clear_initial_password can_remove
            (record s { tables = set_password new_password s.tables }),
      )

  -- `POST /setup`
  unfoldable pub setup : Text → Site → Answer × Site
  unfolding is_password_set set_password strip list_eq nat_eq
  setup password s =
      if is_password_set s.tables
      then (redirect_login, s)
      else if strip is_space password == []
      then (bad_request, s)
      else (redirect_home, record s { tables = set_password password s.tables; authed = true })

-- `_on_must_change_allowlist`
unfoldable pub on_must_change_allowlist : Text → Bool
unfolding starts_with list_eq nat_eq
on_must_change_allowlist path =
    any (λ prefix. path == prefix || starts_with path (prefix ++ slash ∷ []))
      (codes "/account/password" ∷ codes "/auth/logout" ∷ [])

unfoldable pub require_api_auth : Site → Answer
unfolding is_must_change
require_api_auth s =
    if s.authed then if is_must_change s.tables then forbidden else passed else unauthorized

unfoldable pub require_page_auth : Text → Site → Answer
unfolding is_must_change is_password_set on_must_change_allowlist
require_page_auth path s =
    if s.authed
    then if is_must_change s.tables && not (on_must_change_allowlist path)
      then redirect_change
      else passed
    else if is_password_set s.tables
    then redirect_login
    else redirect_setup
