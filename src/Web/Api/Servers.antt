-- ===== src/Web/Api/Servers.antt =====
-- mediascanmonitor/web/api/servers.py
use syno_plex_change_monitor.Base.{false, ℕ, Option, none, some, List, [], ◌∷◌}
use syno_plex_change_monitor.Base.Partial.{◌>>=◌}
use syno_plex_change_monitor.Base.Text.{Text}
use syno_plex_change_monitor.Models.{Server}
use syno_plex_change_monitor.Db.Schemas.{ServerCreate, ServerUpdate}
use syno_plex_change_monitor.Db.Tables.{Tables}
use syno_plex_change_monitor.Db.Repo.{get_server, list_servers, list_folders, resolve_secret}
use syno_plex_change_monitor.Engine.{Machine}
use syno_plex_change_monitor.Servers.Common.{TestResult, Outcome, returned}
use syno_plex_change_monitor.Web.Api.{
  Service, Reply, replied, failed, or_missing, guarded, tables_of, store_of, put_store, status_of,
}
use syno_plex_change_monitor.Web.Probe.{run_connectivity_test, runtime_from_server}
use syno_plex_change_monitor.Web.ReadModels.{ServerRead, server_read}
use syno_plex_change_monitor.Web.Writes.{
  missing, Written, written, refused, Store, apply_server_create, apply_server_update,
  apply_server_delete,
}

abbrev read_found : ℕ → Option Server → Tables → Reply ServerRead
read_found status none t = failed 404
read_found status (some server) t = elim (server_read server (list_folders server.id t)) [
  | none ↦ failed 500
  | some read ↦ replied status read
]

-- `_read_server`, for a reply of a given status.
unfoldable pub read_server : ℕ → ℕ → Tables → Reply ServerRead
unfolding get_server server_read list_folders
read_server status id t = read_found status (get_server id t) t

unfoldable pub read_all : List Server → Tables → Option (List ServerRead)
unfolding server_read list_folders
read_all [] t = some []
read_all (server ∷ servers) t = do
  read ← server_read server (list_folders server.id t)
  rest ← read_all servers t
  some (read ∷ rest)

module _ {W : Type 0} (m : Machine W) (fresh : List ℕ → ℕ) (encrypt : Text → Text) where
  unfoldable pub list_all : Service W → Reply (List ServerRead) × Service W
  unfolding guarded read_all list_servers
  list_all s =
      guarded (λ s. (or_missing (read_all (list_servers false (tables_of s)) (tables_of s)), s)) s

  unfoldable pub get_one : ℕ → Service W → Reply ServerRead × Service W
  unfolding guarded read_server
  get_one id s = guarded (λ s. (read_server 200 id (tables_of s), s)) s

  abbrev created : Written Server × Store W → Service W → Reply ServerRead × Service W
  created (written server, store) s = (read_server 201 server.id store.tables, put_store store s)
  created (refused e, store) s = (failed (status_of e), put_store store s)

  unfoldable pub create_one : ServerCreate → Service W → Reply ServerRead × Service W
  unfolding guarded read_server apply_server_create
  create_one input s =
      guarded (λ s. created (apply_server_create m fresh encrypt input (store_of s)) s) s

  abbrev updated : ℕ → Written Server × Store W → Service W → Reply ServerRead × Service W
  updated id (written server, store) s = (read_server 200 id store.tables, put_store store s)
  updated id (refused missing, store) s = (failed 404, put_store store s)
  updated id (refused e, store) s = (failed (status_of e), put_store store s)

  unfoldable pub update_one : ℕ → ServerUpdate → Service W → Reply ServerRead × Service W
  unfolding guarded read_server apply_server_update
  update_one id update s =
      guarded (λ s. updated id (apply_server_update m fresh encrypt id update (store_of s)) s) s

  abbrev deleted : Written (Unit {0}) × Store W → Service W → Reply (Unit {0}) × Service W
  deleted (written u, store) s = (replied 204 u, put_store store s)
  deleted (refused e, store) s = (failed (status_of e), put_store store s)

  unfoldable pub delete_one : ℕ → Service W → Reply (Unit {0}) × Service W
  unfolding guarded apply_server_delete
  delete_one id s = guarded (λ s. deleted (apply_server_delete m fresh encrypt id (store_of s)) s) s

  abbrev probed : Option (Outcome TestResult) → Reply TestResult
  probed (some (returned result)) = replied 200 result
  probed _ = failed 500

  abbrev tested : Server → Option (Option Text) → Reply TestResult
  tested server none = failed 500
  tested server (some secret) =
      probed (run_connectivity_test m.registry (runtime_from_server server secret))

  abbrev test_found : Option Server → Reply TestResult
  test_found none = failed 404
  test_found (some server) = tested server (resolve_secret m.decrypt server)

  unfoldable pub test_one : ℕ → Service W → Reply TestResult × Service W
  unfolding guarded get_server resolve_secret run_connectivity_test
  test_one id s = guarded (λ s. (test_found (get_server id (tables_of s)), s)) s
