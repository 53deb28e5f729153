-- ===== src/Web/Api/Folders.antt =====
-- mediascanmonitor/web/api/folders.py
use syno_plex_change_monitor.Base.{
  ℕ, Bool, true, false, Option, none, some, List, map, nat_eq, ◌==◌, if◌then◌else◌,
}
use syno_plex_change_monitor.Base.Text.{Text}
use syno_plex_change_monitor.Db.Schemas.{FolderCreate, FolderUpdate}
use syno_plex_change_monitor.Db.Tables.{Tables}
use syno_plex_change_monitor.Db.Repo.{LoadedFolder, get_server, get_folder, list_folders}
use syno_plex_change_monitor.Engine.{Machine}
use syno_plex_change_monitor.Web.Api.{
  Service, Reply, replied, failed, guarded, tables_of, store_of, put_store, status_of,
}
use syno_plex_change_monitor.Web.ReadModels.{FolderRead, folder_read}
use syno_plex_change_monitor.Web.Writes.{
  Written, written, refused, Store, apply_folder_create, apply_folder_update, apply_folder_delete,
}

-- `_require_server`
unfoldable pub has_server : ℕ → Tables → Bool
unfolding get_server
has_server id t = elim (get_server id t) [ none ↦ false | some server ↦ true ]

abbrev owned_by : ℕ → Option LoadedFolder → Option LoadedFolder
owned_by server_id none = none
owned_by server_id (some folder) = if folder.row.server_id == server_id then some folder else none

-- `_require_server` and `_owned_folder`
unfoldable pub owned_folder : ℕ → ℕ → Tables → Option LoadedFolder
unfolding has_server get_folder nat_eq
owned_folder server_id folder_id t =
    if has_server server_id t then owned_by server_id (get_folder folder_id t) else none

module _ {W : Type 0} (m : Machine W) (fresh : List ℕ → ℕ) (encrypt : Text → Text) where
  abbrev on_server :
      {A : Type 0} → ℕ → (Service W → Reply A × Service W) → Service W → Reply A × Service W
  on_server server_id handler s =
      guarded (λ s. if has_server server_id (tables_of s) then handler s else (failed 404, s)) s

  abbrev if_owned :
      {A : Type 0}
      → Option LoadedFolder
      → (LoadedFolder → Reply A × Service W)
      → Service W
      → Reply A × Service W
  if_owned none handler s = (failed 404, s)
  if_owned (some folder) handler s = handler folder

  abbrev on_folder :
      {A : Type 0}
      → ℕ
      → ℕ
      → (LoadedFolder → Service W → Reply A × Service W)
      → Service W
      → Reply A × Service W
  on_folder server_id folder_id handler s =
      guarded
        (λ s.
          if_owned (owned_folder server_id folder_id (tables_of s)) (λ folder. handler folder s) s)
        s

  unfoldable pub list_all : ℕ → Service W → Reply (List FolderRead) × Service W
  unfolding guarded has_server list_folders folder_read
  list_all server_id s =
      on_server server_id
        (λ s. (replied 200 (map folder_read (list_folders server_id (tables_of s))), s)) s

  abbrev answered : ℕ → Written LoadedFolder × Store W → Service W → Reply FolderRead × Service W
  answered status (written folder, store) s =
      (replied status (folder_read folder), put_store store s)
  answered status (refused e, store) s = (failed (status_of e), put_store store s)

  unfoldable pub create_one : ℕ → FolderCreate → Service W → Reply FolderRead × Service W
  unfolding guarded has_server apply_folder_create folder_read
  create_one server_id input s =
      on_server server_id
        (λ s. answered 201 (apply_folder_create m fresh encrypt server_id input (store_of s)) s) s

  unfoldable pub get_one : ℕ → ℕ → Service W → Reply FolderRead × Service W
  unfolding guarded owned_folder folder_read
  get_one server_id folder_id s =
      on_folder server_id folder_id (λ folder s. (replied 200 (folder_read folder), s)) s

  unfoldable pub update_one : ℕ → ℕ → FolderUpdate → Service W → Reply FolderRead × Service W
  unfolding guarded owned_folder apply_folder_update folder_read
  update_one server_id folder_id update s =
      on_folder server_id folder_id
        (λ folder s.
          answered 200 (apply_folder_update m fresh encrypt folder_id update (store_of s)) s)
        s

  abbrev deleted : Written (Unit {0}) × Store W → Service W → Reply (Unit {0}) × Service W
  deleted (written u, store) s = (replied 204 u, put_store store s)
  deleted (refused e, store) s = (failed (status_of e), put_store store s)

  unfoldable pub delete_one : ℕ → ℕ → Service W → Reply (Unit {0}) × Service W
  unfolding guarded owned_folder apply_folder_delete
  delete_one server_id folder_id s =
      on_folder server_id folder_id
        (λ folder s. deleted (apply_folder_delete m fresh encrypt folder_id (store_of s)) s) s
