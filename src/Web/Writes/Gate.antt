-- ===== src/Web/Writes/Gate.antt =====
-- What every sequence of writes keeps of the tables.
use syno_plex_change_monitor.Base.{
  ℕ, ◌≡◌, refl, Bool, true, false, Option, none, some, List, contains, nat_eq, if◌then◌else◌,
}
use syno_plex_change_monitor.Base.Text.{Text}
use syno_plex_change_monitor.Models.{Server, Folder}
use syno_plex_change_monitor.Db.Schemas.{ServerUpdate, FolderCreate}
use syno_plex_change_monitor.Db.Tables.{
  Tables, Result, ok, err, key_error, integrity_error, find_server,
}
use syno_plex_change_monitor.Db.Tables.Consistent.{IsConsistent, empty-IsConsistent}
use syno_plex_change_monitor.Db.Repo.{
  get_server, create_server, create_server_with_folders, update_server, update_server_with_folders,
  delete_server, create_folder, delete_folder,
}
use syno_plex_change_monitor.Db.Repo.Extensions.{update_folder}
use syno_plex_change_monitor.Db.Repo.Keys.{delete_folder-IsConsistent}
use syno_plex_change_monitor.Db.Repo.Keys.Folders.{
  create_folder-IsConsistent, update_folder-IsConsistent,
}
use syno_plex_change_monitor.Db.Repo.ServerKeys.{
  delete_server-IsConsistent, create_server-Stored, create_server_with_folders-IsConsistent,
  update_server-Stored, update_server_with_folders-IsConsistent,
}
use syno_plex_change_monitor.Engine.{Engine, Machine}
use syno_plex_change_monitor.Web.Writes.{
  WriteError, Written, written, refused, Store, secret_satisfied, update_satisfied, is_present,
  rebuild_engine, translated, untranslated, update_existing, update_existing_with_folders,
  read_again, with_id, apply_server_create, apply_server_create_with_folders, apply_server_update,
  apply_server_update_with_folders, apply_server_delete, apply_folder_create, apply_folder_update,
  apply_folder_delete,
}
use syno_plex_change_monitor.Web.Writes.Steps.{
  Write, server_create, server_create_with_folders, server_update, server_update_with_folders,
  server_delete, folder_create, folder_update, folder_delete, Served, new, after,
}
use syno_plex_change_monitor.Web.Writes.Secrets.{
  HasSecrets, delete_folder-HasSecrets, delete_server-HasSecrets,
}
use syno_plex_change_monitor.Web.Writes.Secrets.Methods.{
  create_folder-HasSecrets, update_folder-HasSecrets, create_server-HasSecrets,
  create_server_with_folders-HasSecrets, update_server-HasSecrets,
  update_server_with_folders-HasSecrets,
}

-- What the tables of a served store are.
abbrev pub Sound : Tables → Type 0
Sound t = IsConsistent t × HasSecrets t

-- A branch that is taken only where a test holds.
branch :
    {A : Type 0} {x y : A} (P : A → Type 0) (b : Bool)
    → (b ≡ true → P x)
    → P y
    → P (if b then x else y)
branch P true p q = p refl
branch P false p q = q

module _ {W : Type 0} (m : Machine W) (fresh : List ℕ → ℕ)
    (unused : (ids : List ℕ) → contains ids (fresh ids) ≡ false) (encrypt : Text → Text) where
  abbrev Kept : {A : Type 0} → Written A × Store W → Type 0
  Kept out = Sound out.1.tables

  rebuild_engine-Kept :
      {A : Type 0} (answer : A) (t : Tables) (engine : Engine W)
      → Sound t
      → Kept (rebuild_engine m answer t engine)
  unfolding rebuild_engine
  rebuild_engine-Kept answer t engine h = h

  translated-Kept :
      (r : Result (Server × Tables)) (s : Store W)
      → Sound s.tables
      → ((b : Server × Tables) → r ≡ ok b → Sound b.1)
      → Kept (translated m fresh encrypt r s)
  translated-Kept (ok (server, t)) s h k =
      rebuild_engine-Kept server t s.engine (k (server, t) refl)
  translated-Kept (err integrity_error) s h k = h
  translated-Kept (err key_error) s h k = h

  untranslated-Kept :
      {A : Type 0} (r : Result (A × Tables)) (s : Store W)
      → Sound s.tables
      → ((b : A × Tables) → r ≡ ok b → Sound b.1)
      → Kept (untranslated m fresh encrypt r s)
  untranslated-Kept (ok (answer, t)) s h k =
      rebuild_engine-Kept answer t s.engine (k (answer, t) refl)
  untranslated-Kept (err integrity_error) s h k = h
  untranslated-Kept (err key_error) s h k = h

  update_existing-Kept :
      (o : Option Server) (id : ℕ) (update : ServerUpdate) (s : Store W)
      → find_server id s.tables.servers ≡ o
      → Sound s.tables
      → Kept (update_existing m fresh encrypt o id update s)
  update_existing-Kept none id update s q h = h
  update_existing-Kept (some existing) id update s q (c, k) =
      branch Kept (update_satisfied update existing)
        (λ g.
          untranslated-Kept (update_server fresh encrypt id update s.tables) s (c, k)
            (λ b e. (
              (update_server-Stored fresh unused encrypt id update s.tables b.1 b.0 c e).0,
              update_server-HasSecrets fresh encrypt id update existing s.tables b q g k e,
            )))
        (c, k)

  update_existing_with_folders-Kept :
      (o : Option Server) (id : ℕ) (update : ServerUpdate) (folders : List FolderCreate)
      (s : Store W)
      → find_server id s.tables.servers ≡ o
      → Sound s.tables
      → Kept (update_existing_with_folders m fresh encrypt o id update folders s)
  update_existing_with_folders-Kept none id update folders s q h = h
  update_existing_with_folders-Kept (some existing) id update folders s q (c, k) =
      branch Kept (update_satisfied update existing)
        (λ g.
          translated-Kept (update_server_with_folders fresh encrypt id update folders s.tables) s
            (c, k)
            (λ b e. (
              update_server_with_folders-IsConsistent fresh unused encrypt id update folders
                  s.tables b.1 b.0 c e,
              update_server_with_folders-HasSecrets fresh encrypt id update folders existing
                  s.tables b q g k e,
            )))
        (c, k)

  read_again-Kept : (out : Written ℕ × Store W) → Kept out → Kept (read_again m fresh encrypt out)
  read_again-Kept (refused e, s) h = h
  read_again-Kept (written id, s) h = h

  folder_create-Kept :
      (server_id : ℕ) (input : FolderCreate) (s : Store W) (r : Result (Folder × Tables))
      → create_folder fresh server_id input s.tables ≡ r
      → Sound s.tables
      → Kept (untranslated m fresh encrypt (with_id m fresh encrypt r) s)
  folder_create-Kept server_id input s (err integrity_error) q h = h
  folder_create-Kept server_id input s (err key_error) q h = h
  folder_create-Kept server_id input s (ok (row, t)) q (c, k) =
      rebuild_engine-Kept row.id t s.engine (
        create_folder-IsConsistent fresh unused server_id input s.tables t row c q,
        create_folder-HasSecrets fresh server_id input s.tables t row k q,
      )

  Write-Sound :
      (s u : Store W) (e : Option WriteError)
      → Write m fresh encrypt s e u
      → Sound s.tables
      → Sound u.tables
  unfolding apply_server_create apply_server_create_with_folders apply_server_update
      apply_server_update_with_folders apply_server_delete apply_folder_create apply_folder_update
      apply_folder_delete get_server
  Write-Sound _ _ _ (server_create input s) (c, k) =
      branch Kept (secret_satisfied input.type (is_present input.secret))
        (λ g.
          translated-Kept (create_server fresh encrypt input s.tables) s (c, k)
            (λ b e. (
              (create_server-Stored fresh unused encrypt input s.tables b.1 b.0 c e).0,
              create_server-HasSecrets fresh encrypt input s.tables b.1 b.0 g k e,
            )))
        (c, k)
  Write-Sound _ _ _ (server_create_with_folders input folders s) (c, k) =
      branch Kept (secret_satisfied input.type (is_present input.secret))
        (λ g.
          translated-Kept (create_server_with_folders fresh encrypt input folders s.tables) s (c, k)
            (λ b e. (
              create_server_with_folders-IsConsistent fresh unused encrypt input folders s.tables
                  b.1 b.0 c e,
              create_server_with_folders-HasSecrets fresh encrypt input folders s.tables b.1 b.0 g k
                  e,
            )))
        (c, k)
  Write-Sound _ _ _ (server_update id update s) h =
      update_existing-Kept (find_server id s.tables.servers) id update s refl h
  Write-Sound _ _ _ (server_update_with_folders id update folders s) h =
      update_existing_with_folders-Kept (find_server id s.tables.servers) id update folders s refl h
  Write-Sound _ _ _ (server_delete id s) (c, k) =
      rebuild_engine-Kept tt (delete_server id s.tables) s.engine
        (delete_server-IsConsistent id s.tables c, delete_server-HasSecrets id s.tables k)
  Write-Sound _ _ _ (folder_create server_id input s) h =
      read_again-Kept _
        (folder_create-Kept server_id input s (create_folder fresh server_id input s.tables) refl h)
  Write-Sound _ _ _ (folder_update id update s) (c, k) =
      untranslated-Kept (update_folder fresh m.lower id update s.tables) s (c, k)
        (λ b e. (
          update_folder-IsConsistent fresh unused m.lower id update s.tables b.1 b.0 c e,
          update_folder-HasSecrets fresh m.lower id update s.tables b.1 b.0 k e,
        ))
  Write-Sound _ _ _ (folder_delete id s) (c, k) =
      rebuild_engine-Kept tt (delete_folder id s.tables) s.engine
        (delete_folder-IsConsistent id s.tables c, delete_folder-HasSecrets id s.tables k)

  -- Whatever sequence of writes, refused or not, led from a new database to the store: the keys of
  -- its tables are consistent (`IsConsistent`), and every server whose type requires a secret has
  -- one stored, provided that a new row gets an id that its table does not use.
  pub Served-Sound :
      (engine : Engine W) (s : Store W)
      → Served m fresh encrypt engine s
      → IsConsistent s.tables × HasSecrets s.tables
  Served-Sound engine _ new = (empty-IsConsistent, tt)
  Served-Sound engine _ (after s u e r w) = Write-Sound s u e w (Served-Sound engine s r)
