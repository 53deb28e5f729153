-- ===== src/Web/Auth/Access.antt =====
-- Which password the handlers leave in force, and whom the guards then let through.
use syno_plex_change_monitor.Base.{
  ◌≢◌, ℕ, ◌≡◌, refl, ◌∙◌, Bool, true, false, Option, some, [], ◌∷◌, ◌++◌, ◌==◌, ◌⊎◌, inl, inr,
  nat_eq, list_eq, option_eq, Bool-cases, eq_self, ==_iff,
}
use syno_plex_change_monitor.Base.Dict.{lookup-insert}
use syno_plex_change_monitor.Base.Text.{Text, codes, strip, is_space}
use syno_plex_change_monitor.Db.Tables.{Tables}
use syno_plex_change_monitor.Db.Repo.{get_setting, set_setting}
use syno_plex_change_monitor.Web.RateLimit.{allowed}
use syno_plex_change_monitor.Web.Auth.{
  Site, FileWrite, written, failed, password_hash_key, must_change_key, is_password_set,
  is_must_change, set_password, check_password, generate_and_store, clear_initial_password,
  bootstrap_password, change_password, reset_password, setup, require_api_auth, passed, forbidden,
  redirect_home, redirect_reset, redirect_login, bad_request, too_many_requests, server_error,
}

get_setting-set_setting :
    (key value : Text) (t : Tables) → get_setting key (set_setting key value t) ≡ some value
unfolding get_setting set_setting
get_setting-set_setting key value t = lookup-insert key key value t.settings ∙ rw (eq_self key) refl

get_setting-set_other :
    (other key value : Text) (t : Tables)
    → other == key ≡ false
    → get_setting other (set_setting key value t) ≡ get_setting other t
unfolding get_setting set_setting
get_setting-set_other other key value t h = lookup-insert other key value t.settings ∙ rw h refl

ne_of_test : (a b : Text) → a == b ≡ false → a ≢ b
ne_of_test a b h e = let same = (==_iff a b).1 e in cc

module _ (hash_password : Text → Text) (verify : Text → Text → Bool) where
  -- That a password is the one in force, and whether it has to be changed.
  abbrev pub InForce : Text → Bool → Tables → Type 0
  InForce password must_change t =
      (check_password hash_password verify password t ≡ true)
      × (is_password_set t ≡ true)
      × (is_must_change t ≡ must_change)

  module _ (accepts : (password : Text) → verify (hash_password password) password ≡ true) where
    in_force :
        (password : Text) (t : Tables)
        → get_setting password_hash_key t ≡ some (hash_password password)
        → (check_password hash_password verify password t ≡ true) × (is_password_set t ≡ true)
    unfolding check_password is_password_set
    in_force password t e = (rw e (accepts password), rw e refl)

    -- The flag is set first in one handler, and last in the other.
    flag_then_password :
        (password : Text) (t : Tables)
        → InForce password true
            (set_password hash_password verify password (set_setting must_change_key (codes "1") t))
    unfolding set_password list_eq nat_eq option_eq
    flag_then_password password t =
        let (c, i) = in_force password _ (
          get_setting-set_setting password_hash_key (hash_password password)
            (set_setting must_change_key (codes "1") t)) in
        (
          c,
          i,
          unfold is_must_change in
              rw
                (
                  get_setting-set_other must_change_key password_hash_key (hash_password password)
                      (set_setting must_change_key (codes "1") t) refl,
                  get_setting-set_setting must_change_key (codes "1") t,
                )
                refl,
        )

    password_then_flag :
        (password : Text) (t : Tables)
        → InForce password false
            (set_setting must_change_key (codes "0") (set_password hash_password verify password t))
    unfolding set_password list_eq nat_eq option_eq
    password_then_flag password t =
        let (c, i) = in_force password _ (
          get_setting-set_other password_hash_key must_change_key (codes "0")
            (set_setting password_hash_key (hash_password password) t) refl
          ∙ get_setting-set_setting password_hash_key (hash_password password) t) in
        (
          c,
          i,
          unfold is_must_change in
              rw
                (get_setting-set_setting must_change_key (codes "0")
                  (set_setting password_hash_key (hash_password password) t))
                refl,
        )

    -- Where a hash is verified with its password, in a session that is logged in: a change of the
    -- password succeeds exactly if the current password is right, the new one is not blank and the
    -- two copies agree. Then the new password is in force, need not be changed, and the session
    -- passes the guard of the API. Otherwise the answer is a bad request and nothing changes.
    pub change_password_lem :
        (can_remove : Bool) (current new confirm : Text) (s : Site)
        → s.authed ≡ true
        → let (answer, next) =
            change_password hash_password verify can_remove current new confirm s in
          ((answer ≡ redirect_home)
            × (check_password hash_password verify current s.tables ≡ true)
            × (strip is_space new ≢ [])
            × (new ≡ confirm)
            × InForce new false next.tables
            × (require_api_auth next ≡ passed))
          ⊎ ((answer ≡ bad_request)
              × (next ≡ s)
              × ((check_password hash_password verify current s.tables ≡ false)
                  ⊎ ((strip is_space new ≡ []) ⊎ (new ≢ confirm))))
    unfolding change_password clear_initial_password
    change_password_lem can_remove current new confirm s a =
        elim (Bool-cases (check_password hash_password verify current s.tables)) [
          | inr wrong ↦ inr (rw wrong refl, rw wrong refl, inl wrong)
          | inl right ↦ elim (Bool-cases (strip is_space new == [])) [
            | inl blank ↦ inr (
              rw (right, blank) refl,
              rw (right, blank) refl,
              inr (inl ((==_iff (strip is_space new) []).0 blank)),
            )
            | inr filled ↦ elim (Bool-cases (new == confirm)) [
              | inr differ ↦ inr (
                rw (right, filled, differ) refl,
                rw (right, filled, differ) refl,
                inr (inr (ne_of_test new confirm differ)),
              )
              | inl same ↦
                  let forced = password_then_flag new s.tables in
                  inl (
                    rw (right, filled, same)
                      (
                        refl,
                        refl,
                        ne_of_test (strip is_space new) [] filled,
                        (==_iff new confirm).0 same,
                        forced,
                        unfold require_api_auth in rw (a, forced.2) refl,
                      ))
            ]
          ]
        ]

    -- Where a hash is verified with its password, a reset of a forgotten password ends in one of
    -- three ways. Too many were asked for: the tables and the file are as they were. The file could
    -- not be written: the tables are as they were, so that the old password stays in force,
    -- whatever the failed write left of the file. Or the generated password is in force and has to
    -- be changed, it is what the file holds, and until it is changed a session that is logged in is
    -- forbidden by the guard of the API.
    pub reset_password_lem :
        (now later last : ℕ) (key : Text) (write : FileWrite) (generated : Text) (s : Site)
        → let (answer, next) =
            reset_password hash_password verify now later last key write generated s in
          ((answer ≡ too_many_requests)
            × (next.tables ≡ s.tables)
            × (next.initial_file ≡ s.initial_file))
          ⊎ (((answer ≡ server_error) × (next.tables ≡ s.tables) × (write ≢ written))
              ⊎ ((answer ≡ redirect_reset)
                  × InForce generated true next.tables
                  × (next.initial_file ≡ some (generated ++ b'\n' ∷ []))
                  × (require_api_auth (record next { authed = true }) ≡ forbidden)))
    unfolding reset_password
    reset_password_lem now later last key write generated s =
        elim (Bool-cases (allowed now key s.reset_limiter).1) [
          | inr many ↦ inl (rw many (refl, refl, refl))
          | inl few ↦ inr (ended few write)
        ]
      where
        ended :
            (allowed now key s.reset_limiter).1 ≡ true
            → (write : FileWrite)
            → let (answer, next) =
                reset_password hash_password verify now later last key write generated s in
              ((answer ≡ server_error) × (next.tables ≡ s.tables) × (write ≢ written))
              ⊎ ((answer ≡ redirect_reset)
                  × InForce generated true next.tables
                  × (next.initial_file ≡ some (generated ++ b'\n' ∷ []))
                  × (require_api_auth (record next { authed = true }) ≡ forbidden))
        ended few (failed file) = inl (
          unfold generate_and_store in rw few refl,
          unfold generate_and_store in rw few refl,
          λ e. cc,
        )
        ended few written =
            let forced = flag_then_password generated s.tables in
            inr (
              unfold generate_and_store in
              rw few (refl, forced, refl, unfold require_api_auth in rw (forced.2) refl))

    -- A password that is set is never replaced by the first-run page or at start-up.
    pub password_kept :
        (password : Text) (file env : Option Text) (write : FileWrite) (generated : Text) (s : Site)
        → is_password_set s.tables ≡ true
        → (setup hash_password verify password s ≡ (redirect_login, s))
          × (bootstrap_password hash_password verify file env write generated s ≡ (true, s))
    unfolding setup bootstrap_password
    password_kept password file env write generated s h = (rw h refl, rw h refl)
