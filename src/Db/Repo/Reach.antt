-- ===== src/Db/Repo/Reach.antt =====
-- The sequences of the repository's methods. A method that raises changes nothing.
use syno_plex_change_monitor.Base.{ℕ, ◌≡◌, false, List, contains, nat_eq}
use syno_plex_change_monitor.Base.Text.{Text}
use syno_plex_change_monitor.Models.{Server, Folder, FileType}
use syno_plex_change_monitor.Db.Schemas.{ServerCreate, ServerUpdate, FolderCreate, FolderUpdate}
use syno_plex_change_monitor.Db.Tables.{Tables, ok, empty}
use syno_plex_change_monitor.Db.Tables.Consistent.{IsConsistent, empty-IsConsistent}
use syno_plex_change_monitor.Db.Repo.{
  LoadedFolder, create_folder, delete_folder, delete_server, create_server,
  create_server_with_folders, update_server, update_server_with_folders, set_setting,
}
use syno_plex_change_monitor.Db.Repo.Extensions.{update_folder, set_filetypes}
use syno_plex_change_monitor.Db.Repo.Keys.{delete_folder-IsConsistent}
use syno_plex_change_monitor.Db.Repo.Keys.Folders.{
  create_folder-IsConsistent, update_folder-IsConsistent, set_filetypes-IsConsistent,
}
use syno_plex_change_monitor.Db.Repo.ServerKeys.{
  delete_server-IsConsistent, create_server-Stored, create_server_with_folders-IsConsistent,
  update_server-Stored, update_server_with_folders-IsConsistent,
}

module _ (fresh : List ℕ → ℕ) (encrypt lower : Text → Text) where
  -- One call of a method that returns, from the tables before it to the tables after it.
  pub data Step : Tables → Tables → Type 0 where
    server_created :
        (input : ServerCreate) (t u : Tables) (row : Server)
        → create_server fresh encrypt input t ≡ ok (row, u)
        → Step t u
    server_created_with_folders :
        (input : ServerCreate) (folders : List FolderCreate) (t u : Tables) (row : Server)
        → create_server_with_folders fresh encrypt input folders t ≡ ok (row, u)
        → Step t u
    server_updated :
        (id : ℕ) (update : ServerUpdate) (t u : Tables) (row : Server)
        → update_server fresh encrypt id update t ≡ ok (row, u)
        → Step t u
    server_updated_with_folders :
        (id : ℕ) (update : ServerUpdate) (folders : List FolderCreate) (t u : Tables) (row : Server)
        → update_server_with_folders fresh encrypt id update folders t ≡ ok (row, u)
        → Step t u
    server_deleted : (id : ℕ) (t : Tables) → Step t (delete_server id t)
    folder_created :
        (server_id : ℕ) (input : FolderCreate) (t u : Tables) (row : Folder)
        → create_folder fresh server_id input t ≡ ok (row, u)
        → Step t u
    folder_updated :
        (id : ℕ) (update : FolderUpdate) (t u : Tables) (folder : LoadedFolder)
        → update_folder fresh lower id update t ≡ ok (folder, u)
        → Step t u
    folder_deleted : (id : ℕ) (t : Tables) → Step t (delete_folder id t)
    filetypes_set :
        (id : ℕ) (extensions : List Text) (t u : Tables) (rows : List FileType)
        → set_filetypes fresh lower id extensions t ≡ ok (rows, u)
        → Step t u
    setting_set : (key value : Text) (t : Tables) → Step t (set_setting key value t)

  -- The tables that a sequence of calls leads to, from the new database.
  pub data Reachable : Tables → Type 0 where
    new : Reachable empty
    after : (t u : Tables) → Reachable t → Step t u → Reachable u

module _ (fresh : List ℕ → ℕ) (unused : (ids : List ℕ) → contains ids (fresh ids) ≡ false)
    (encrypt lower : Text → Text) where
  Step-IsConsistent :
      (t u : Tables) → Step fresh encrypt lower t u → IsConsistent t → IsConsistent u
  unfolding set_setting
  Step-IsConsistent _ _ (server_created input t u row e) c =
      (create_server-Stored fresh unused encrypt input t u row c e).0
  Step-IsConsistent _ _ (server_created_with_folders input folders t u row e) c =
      create_server_with_folders-IsConsistent fresh unused encrypt input folders t u row c e
  Step-IsConsistent _ _ (server_updated id update t u row e) c =
      (update_server-Stored fresh unused encrypt id update t u row c e).0
  Step-IsConsistent _ _ (server_updated_with_folders id update folders t u row e) c =
      update_server_with_folders-IsConsistent fresh unused encrypt id update folders t u row c e
  Step-IsConsistent _ _ (server_deleted id t) c = delete_server-IsConsistent id t c
  Step-IsConsistent _ _ (folder_created server_id input t u row e) c =
      create_folder-IsConsistent fresh unused server_id input t u row c e
  Step-IsConsistent _ _ (folder_updated id update t u folder e) c =
      update_folder-IsConsistent fresh unused lower id update t u folder c e
  Step-IsConsistent _ _ (folder_deleted id t) c = delete_folder-IsConsistent id t c
  Step-IsConsistent _ _ (filetypes_set id extensions t u rows e) c =
      set_filetypes-IsConsistent fresh unused lower id extensions t u rows c e
  Step-IsConsistent _ _ (setting_set key value t) c = record {
    servers = c.servers;
    unique_names = c.unique_names;
    folders = c.folders;
    filetypes = c.filetypes;
    belong = c.belong;
    attached = c.attached;
  }

  -- Whatever sequence of the repository's methods led from the new database to the tables: no two
  -- servers have the same id or the same name, no two folders and no two filetypes have the same
  -- id, each folder belongs to a server that is there, and each filetype to a folder that is
  -- there, provided that a new row gets an id that its table does not use.
  pub Reachable-IsConsistent : (t : Tables) → Reachable fresh encrypt lower t → IsConsistent t
  Reachable-IsConsistent _ new = empty-IsConsistent
  Reachable-IsConsistent _ (after t u r s) = Step-IsConsistent t u s (Reachable-IsConsistent t r)
