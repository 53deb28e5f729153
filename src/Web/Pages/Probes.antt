-- ===== src/Web/Pages/Probes.antt =====
-- The handlers of mediascanmonitor/web/pages.py that probe a server.
use syno_plex_change_monitor.Web.Pages.{
  Page, error_status, guarded_page, library_input, library_options, server_path, test_input,
  test_result,
}
use syno_plex_change_monitor.Base.{ℕ, Option, none, some, List, [], ◌∷◌, nat_eq, list_eq}
use syno_plex_change_monitor.Base.Text.{Text, codes, decimal}
use syno_plex_change_monitor.Models.{Server}
use syno_plex_change_monitor.Db.Repo.{get_server, resolve_secret}
use syno_plex_change_monitor.Engine.{Machine}
use syno_plex_change_monitor.Servers.Common.{TestResult, LibraryListResult, Outcome, returned}
use syno_plex_change_monitor.Web.Api.{Service, tables_of}
use syno_plex_change_monitor.Web.Forms.{ServerForm, server_type_of, webhook_preset_of}
use syno_plex_change_monitor.Web.Probe.{
  runtime_from_server, runtime_from_create, run_connectivity_test, run_library_listing,
}

module _ {W : Type 0} (m : Machine W) (fresh : List ℕ → ℕ) (encrypt : Text → Text) where
  abbrev tested_page : Option (Outcome TestResult) → Page
  tested_page (some (returned result)) = test_result (some result)
  tested_page _ = error_status 500

  abbrev libraries_page : Option (Outcome LibraryListResult) → Page
  libraries_page (some (returned result)) = library_options (some result)
  libraries_page _ = error_status 500

  -- `POST /ui/servers/test`: the form as it stands is probed.
  unfoldable pub ui_test_server_config : ServerForm → Service W → Page × Service W
  unfolding guarded_page server_type_of webhook_preset_of run_connectivity_test
  ui_test_server_config f s =
      guarded_page (codes "/ui/servers/test")
        (λ s. (
          elim (test_input f) [
            | none ↦ test_result none
            | some input ↦
                tested_page (run_connectivity_test m.registry (runtime_from_create input))
          ],
          s,
        ))
        s

  abbrev tested_with : Server → Option (Option Text) → Page
  tested_with server none = error_status 500
  tested_with server (some secret) =
      tested_page (run_connectivity_test m.registry (runtime_from_server server secret))

  -- `POST /ui/servers/{server_id}/test`
  unfoldable pub ui_test_server : ℕ → Service W → Page × Service W
  unfolding guarded_page decimal get_server resolve_secret run_connectivity_test
  ui_test_server id s =
      guarded_page (server_path id "test")
        (λ s. (
          elim (get_server id (tables_of s)) [
            | none ↦ test_result none
            | some server ↦ tested_with server (resolve_secret m.decrypt server)
          ],
          s,
        ))
        s

  -- `POST /ui/servers/libraries`
  unfoldable pub ui_list_libraries_config : ServerForm → Service W → Page × Service W
  unfolding guarded_page server_type_of run_library_listing
  ui_list_libraries_config f s =
      guarded_page (codes "/ui/servers/libraries")
        (λ s. (
          elim (library_input f) [
            | none ↦ library_options none
            | some input ↦
                libraries_page (run_library_listing m.registry (runtime_from_create input))
          ],
          s,
        ))
        s

  -- `secret or stored`
  abbrev secret_or : Text → Option Text → Option Text
  secret_or [] stored = stored
  secret_or (c ∷ secret) stored = some (c ∷ secret)

  abbrev listed_with : Server → Text → Option (Option Text) → Page
  listed_with server secret none = error_status 500
  listed_with server secret (some stored) =
      libraries_page
        (run_library_listing m.registry (runtime_from_server server (secret_or secret stored)))

  -- `POST /ui/servers/{server_id}/libraries`
  unfoldable pub ui_list_libraries : ℕ → Text → Service W → Page × Service W
  unfolding guarded_page decimal get_server resolve_secret run_library_listing
  ui_list_libraries id secret s =
      guarded_page (server_path id "libraries")
        (λ s. (
          elim (get_server id (tables_of s)) [
            | none ↦ library_options none
            | some server ↦ listed_with server secret (resolve_secret m.decrypt server)
          ],
          s,
        ))
        s
