-- ===== src/Web/Api.antt =====
-- mediascanmonitor/web/api: the routes of the JSON API. A route takes and gives the service; its
-- reply is a status with a body, or a status alone where it raised.
pub mod Servers
pub mod Folders
pub mod System
pub mod Calls
pub mod Ownership
pub mod Conflict
use syno_plex_change_monitor.Base.{
  ℕ, Bool, true, false, Option, none, some, List, [], ◌∷◌, ◌&&◌, leb, if◌then◌else◌, map,
}
use syno_plex_change_monitor.Db.Tables.{Tables}
use syno_plex_change_monitor.Engine.{Engine}
use syno_plex_change_monitor.Observ.EventsBus.{Bus, EventRecord, recent}
use syno_plex_change_monitor.Web.Auth.{
  Site, Answer, passed, unauthorized, forbidden, require_api_auth,
}
use syno_plex_change_monitor.Web.RateLimit.{create}
use syno_plex_change_monitor.Web.ReadModels.{EventRead, event_read}
use syno_plex_change_monitor.Web.Writes.{
  WriteError, secret_required, name_conflict, missing, Written, written, refused, Store,
}

-- The application for one browser: what `create_app` puts on `app.state`, and the session.
pub record Service (W : Type 0) : Type 0 where
  pub site : Site
  pub engine : Engine W

-- `create_app`: the login limiter with its defaults, and the stricter one for resets.
unfoldable pub create_app : {W : Type 0} → Tables → Engine W → Service W
unfolding create
create_app tables engine = record {
  site = record {
    tables = tables;
    initial_file = none;
    authed = false;
    limiter = create 5 300;
    reset_limiter = create 3 3600;
  };
  engine = engine;
}

pub data Reply {ℓ} (A : Type ℓ) : Type ℓ where
  replied : ℕ → A → Reply A
  failed : ℕ → Reply A

abbrev pub or_missing {ℓ} : {A : Type ℓ} → Option A → Reply A
or_missing none = failed 500
or_missing (some answer) = replied 200 answer

module _ {W : Type 0} where
  abbrev pub tables_of : Service W → Tables
  tables_of s = s.site.tables

  abbrev pub store_of : Service W → Store W
  store_of s = record { tables = s.site.tables; engine = s.engine }

  abbrev pub put_store : Store W → Service W → Service W
  put_store store s = record s {
    site = record s.site { tables = store.tables };
    engine = store.engine;
  }

  abbrev admit :
      {A : Type 0} → Answer → (Service W → Reply A × Service W) → Service W → Reply A × Service W
  admit passed handler s = handler s
  admit forbidden handler s = (failed 403, s)
  admit _ handler s = (failed 401, s)

  -- `dependencies=[Depends(require_api_auth)]` of a router.
  unfoldable pub guarded :
      {A : Type 0} → (Service W → Reply A × Service W) → Service W → Reply A × Service W
  unfolding require_api_auth
  guarded handler s = admit (require_api_auth s.site) handler s

  -- `GET /api/events/recent`, with the bounds of its query.
  unfoldable pub recent_events :
      Bus EventRecord → ℕ → Service W → Reply (List EventRead) × Service W
  unfolding guarded recent
  recent_events bus limit s =
      guarded
        (λ s. (
          if leb 1 limit && leb limit 200
              then replied 200 (map event_read (recent limit bus))
              else failed 422,
          s,
        ))
        s

-- The status of an exception that no handler catches: an `HTTPException` has its own.
abbrev pub status_of : WriteError → ℕ
status_of secret_required = 422
status_of name_conflict = 409
status_of _ = 500
