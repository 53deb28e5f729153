-- ===== src/Web/Api/Ownership.antt =====
-- The folders that the routes of another server do not reach.
use syno_plex_change_monitor.Base.{
  ℕ, ◌≡◌, ◌≢◌, refl, Bool-cases, none, some, List, inl, inr, nat_eq, ◌==◌, ==_iff,
}
use syno_plex_change_monitor.Base.Text.{Text}
use syno_plex_change_monitor.Db.Schemas.{FolderUpdate}
use syno_plex_change_monitor.Db.Tables.{Tables}
use syno_plex_change_monitor.Db.Repo.{LoadedFolder, get_folder}
use syno_plex_change_monitor.Engine.{Machine}
use syno_plex_change_monitor.Web.Auth.{require_api_auth, passed}
use syno_plex_change_monitor.Web.Api.{Service, failed, guarded, tables_of}
use syno_plex_change_monitor.Web.Api.Folders.{
  has_server, owned_folder, get_one, update_one, delete_one,
}

owned_folder-other :
    (server_id folder_id : ℕ) (folder : LoadedFolder) (t : Tables)
    → get_folder folder_id t ≡ some folder
    → folder.row.server_id ≢ server_id
    → owned_folder server_id folder_id t ≡ none
unfolding owned_folder
owned_folder-other server_id folder_id folder t found other =
    rw found (elim (Bool-cases (has_server server_id t)) [
      | inl e ↦ rw e (elim (Bool-cases (folder.row.server_id == server_id)) [
        | inl f ↦ absurd (other ((==_iff folder.row.server_id server_id).0 f))
        | inr f ↦ rw f refl
      ])
      | inr e ↦ rw e refl
    ])

module _ {W : Type 0} (m : Machine W) (fresh : List ℕ → ℕ) (encrypt : Text → Text) where
  -- A request that the guard lets pass, for a folder under a server that is not its own, is
  -- answered with 404 by each of the three routes of one folder, and changes nothing.
  pub other_server_folder :
      (server_id folder_id : ℕ) (folder : LoadedFolder) (update : FolderUpdate) (s : Service W)
      → require_api_auth s.site ≡ passed
      → get_folder folder_id (tables_of s) ≡ some folder
      → folder.row.server_id ≢ server_id
      → (get_one m fresh encrypt server_id folder_id s ≡ (failed 404, s))
        × (update_one m fresh encrypt server_id folder_id update s ≡ (failed 404, s))
        × (delete_one m fresh encrypt server_id folder_id s ≡ (failed 404, s))
  unfolding get_one update_one delete_one guarded
  other_server_folder server_id folder_id folder update s pass found other =
      let closed = owned_folder-other server_id folder_id folder (tables_of s) found other in
      (rw (pass, closed) refl, rw (pass, closed) refl, rw (pass, closed) refl)
