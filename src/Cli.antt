-- ===== src/Cli.antt =====
-- mediascanmonitor/cli.py and web/server.py: the process around the engine. The arguments are those
-- that argparse has read; how the headless process ends is an argument of `main`.
use syno_plex_change_monitor.Base.{
  ℕ, Bool, true, false, Option, none, some, nat_eq, list_eq, if◌then◌else◌,
}
use syno_plex_change_monitor.Base.Text.{Text}
use syno_plex_change_monitor.Engine.{
  Engine, EngineState, EngineError, starting, running, blocked, stopped, Machine,
}
use syno_plex_change_monitor.Engine
use syno_plex_change_monitor.Engine.Control.{start, aclose}
use syno_plex_change_monitor.Observ.EventsBus
use syno_plex_change_monitor.Web.Api.{Service, create_app}
use syno_plex_change_monitor.Web.Auth.{FileWrite, Site, bootstrap_password}

-- The exit code, or an exception.
pub data Exit : Type 0 where
  code : ℕ → Exit
  raised : Exit

module _ {W : Type 0} (m : Machine W) where
  module _ (hash_password : Text → Text) (verify : Text → Text → Bool) where
    -- The start is cancelled, so that it ends in any case; an exception of it is raised again.
    abbrev web_exit : Option EngineError → Exit
    web_exit none = code 0
    web_exit (some e) = raised

    abbrev web_stopped : Option EngineError → Service W → Exit × Service W
    web_stopped e s = (web_exit e, record s { engine = aclose m s.engine })

    abbrev booted : (Service W → Service W) → Bool × Site → Engine W → Exit × Service W
    booted requests (false, site) engine = (raised, record { site = site; engine = engine })
    booted requests (true, site) engine =
        let (e, s) = start m true site.tables engine in
        let app = create_app site.tables s in
        web_stopped e
          (requests (record app { site = record app.site { initial_file = site.initial_file } }))

    -- `serve_web`: the password is seeded, the engine started, and what the requests and events
    -- make of the service comes before the stop.
    unfoldable pub serve_web :
        Option Text
        → Option Text
        → FileWrite
        → Text
        → (Service W → Service W)
        → Site
        → Exit × Service W
    unfolding Engine.create bootstrap_password start create_app aclose EventsBus.create
    serve_web file env write generated requests site =
        booted requests (bootstrap_password hash_password verify file env write generated site)
          (Engine.create none (some (EventsBus.create 200)) (some (EventsBus.create 200)))

-- `args`: no command, or `run` with or without `--no-web`.
pub data Command : Type 0 where
  help : Command
  run : Bool → Command

-- `_cmd_run`, for a repository and a key that can be had or not.
abbrev pub cmd_run : Bool → Bool → Exit → Exit → Exit
cmd_run can_build no_web headless web =
    if can_build then if no_web then headless else web else code 1

-- `main`
unfoldable pub main : Bool → Exit → Exit → Command → Exit
main can_build headless web help = code 0
main can_build headless web (run no_web) = cmd_run can_build no_web headless web
