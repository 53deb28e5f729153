-- ===== src/Web/Api/Calls.antt =====
-- The guarded routes of the JSON API, and the requests that their guard turns away.
use syno_plex_change_monitor.Base.{
  ℕ, ◌≡◌, ◌≢◌, ◌⊎◌, refl, Bool, true, false, Bool-cases, List, inl, inr, nat_eq, list_eq,
}
use syno_plex_change_monitor.Base.Text.{Text}
use syno_plex_change_monitor.Db.Schemas.{ServerCreate, ServerUpdate, FolderCreate, FolderUpdate}
use syno_plex_change_monitor.Engine.{Machine}
use syno_plex_change_monitor.Observ.EventsBus.{Bus, EventRecord}
use syno_plex_change_monitor.Web.Auth.{is_must_change, require_api_auth, passed}
use syno_plex_change_monitor.Web.Api.{Service, Reply, replied, failed, admit, guarded}
use syno_plex_change_monitor.Web.Api.Servers
use syno_plex_change_monitor.Web.Api.Folders
use syno_plex_change_monitor.Web.Api.System.{GatePolicy, ready}
use syno_plex_change_monitor.Web.Api.System
use syno_plex_change_monitor.Web.Api

abbrev pub code : {A : Type 0} → Reply A → ℕ
code (replied status answer) = status
code (failed status) = status

module _ {W : Type 0} (m : Machine W) (fresh : List ℕ → ℕ) (encrypt : Text → Text) where
  -- One request to a route: the service before it, the status of the reply, and the service after.
  pub data Call : Service W → ℕ → Service W → Type 0 where
    list_servers :
        (s : Service W)
        → Call s
            (code (Servers.list_all m fresh encrypt s).0)
            (Servers.list_all m fresh encrypt s).1
    get_server :
        (id : ℕ) (s : Service W)
        → Call s
            (code (Servers.get_one m fresh encrypt id s).0)
            (Servers.get_one m fresh encrypt id s).1
    create_server :
        (input : ServerCreate) (s : Service W)
        → Call s
            (code (Servers.create_one m fresh encrypt input s).0)
            (Servers.create_one m fresh encrypt input s).1
    update_server :
        (id : ℕ) (update : ServerUpdate) (s : Service W)
        → Call s
            (code (Servers.update_one m fresh encrypt id update s).0)
            (Servers.update_one m fresh encrypt id update s).1
    delete_server :
        (id : ℕ) (s : Service W)
        → Call s
            (code (Servers.delete_one m fresh encrypt id s).0)
            (Servers.delete_one m fresh encrypt id s).1
    test_server :
        (id : ℕ) (s : Service W)
        → Call s
            (code (Servers.test_one m fresh encrypt id s).0)
            (Servers.test_one m fresh encrypt id s).1
    list_folders :
        (server_id : ℕ) (s : Service W)
        → Call s
            (code (Folders.list_all m fresh encrypt server_id s).0)
            (Folders.list_all m fresh encrypt server_id s).1
    create_folder :
        (server_id : ℕ) (input : FolderCreate) (s : Service W)
        → Call s
            (code (Folders.create_one m fresh encrypt server_id input s).0)
            (Folders.create_one m fresh encrypt server_id input s).1
    get_folder :
        (server_id folder_id : ℕ) (s : Service W)
        → Call s
            (code (Folders.get_one m fresh encrypt server_id folder_id s).0)
            (Folders.get_one m fresh encrypt server_id folder_id s).1
    update_folder :
        (server_id folder_id : ℕ) (update : FolderUpdate) (s : Service W)
        → Call s
            (code (Folders.update_one m fresh encrypt server_id folder_id update s).0)
            (Folders.update_one m fresh encrypt server_id folder_id update s).1
    delete_folder :
        (server_id folder_id : ℕ) (s : Service W)
        → Call s
            (code (Folders.delete_one m fresh encrypt server_id folder_id s).0)
            (Folders.delete_one m fresh encrypt server_id folder_id s).1
    recent_events :
        (bus : Bus EventRecord) (limit : ℕ) (s : Service W)
        → Call s (code (Api.recent_events bus limit s).0) (Api.recent_events bus limit s).1
    ready_probe :
        (reachable : Bool) (s : Service W)
        → Call s (code (ready reachable s).0) (ready reachable s).1
    api_status : (s : Service W) → Call s (code (System.api_status s).0) (System.api_status s).1
    set_inotify_gate :
        (policy : GatePolicy) (s : Service W)
        → Call s
            (code (System.set_inotify_gate m policy s).0)
            (System.set_inotify_gate m policy s).1
    engine_recheck :
        (s : Service W) → Call s (code (System.engine_recheck m s).0) (System.engine_recheck m s).1

  -- What becomes of a request that the guard turns away.
  abbrev pub TurnedAway : Service W → ℕ → Service W → Type 0
  TurnedAway s status u =
      (u ≡ s)
      × (((status ≡ 401) × (s.site.authed ≡ false))
          ⊎ ((status ≡ 403) × (s.site.authed ≡ true) × (is_must_change s.site.tables ≡ true)))

  guarded-TurnedAway :
      {A : Type 0} (handler : Service W → Reply A × Service W) (s : Service W)
      → require_api_auth s.site ≢ passed
      → TurnedAway s (code (guarded handler s).0) (guarded handler s).1
  unfolding guarded require_api_auth
  guarded-TurnedAway handler s n = elim (Bool-cases s.site.authed) [
    | inr e ↦ rw e (refl, inl (refl, refl))
    | inl e ↦ elim (Bool-cases (is_must_change s.site.tables)) [
      | inl f ↦ rw (e, f) (refl, inr (refl, refl, refl))
      | inr f ↦ absurd (n (rw (e, f) refl))
    ]
  ]

  -- A request to any guarded route of the JSON API, from a browser that the guard does not let
  -- pass, changes nothing. The reply has status 401 if the browser is not logged in, and 403 if it
  -- is and the password has yet to be changed.
  pub Call-TurnedAway :
      (s u : Service W) (status : ℕ)
      → Call s status u
      → require_api_auth s.site ≢ passed
      → TurnedAway s status u
  unfolding Servers.list_all Servers.get_one Servers.create_one Servers.update_one
      Servers.delete_one Servers.test_one Folders.list_all Folders.create_one Folders.get_one
      Folders.update_one Folders.delete_one Api.recent_events ready System.api_status
      System.set_inotify_gate System.engine_recheck
  Call-TurnedAway _ _ _ (list_servers s) n = guarded-TurnedAway _ s n
  Call-TurnedAway _ _ _ (get_server id s) n = guarded-TurnedAway _ s n
  Call-TurnedAway _ _ _ (create_server input s) n = guarded-TurnedAway _ s n
  Call-TurnedAway _ _ _ (update_server id update s) n = guarded-TurnedAway _ s n
  Call-TurnedAway _ _ _ (delete_server id s) n = guarded-TurnedAway _ s n
  Call-TurnedAway _ _ _ (test_server id s) n = guarded-TurnedAway _ s n
  Call-TurnedAway _ _ _ (list_folders server_id s) n = guarded-TurnedAway _ s n
  Call-TurnedAway _ _ _ (create_folder server_id input s) n = guarded-TurnedAway _ s n
  Call-TurnedAway _ _ _ (get_folder server_id folder_id s) n = guarded-TurnedAway _ s n
  Call-TurnedAway _ _ _ (update_folder server_id folder_id update s) n = guarded-TurnedAway _ s n
  Call-TurnedAway _ _ _ (delete_folder server_id folder_id s) n = guarded-TurnedAway _ s n
  Call-TurnedAway _ _ _ (recent_events bus limit s) n = guarded-TurnedAway _ s n
  Call-TurnedAway _ _ _ (ready_probe reachable s) n = guarded-TurnedAway _ s n
  Call-TurnedAway _ _ _ (api_status s) n = guarded-TurnedAway _ s n
  Call-TurnedAway _ _ _ (set_inotify_gate policy s) n = guarded-TurnedAway _ s n
  Call-TurnedAway _ _ _ (engine_recheck s) n = guarded-TurnedAway _ s n
