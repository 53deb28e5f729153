-- ===== src/Db/Repo/Keys/Folders.antt =====
-- The methods of the repository that write folders keep the keys of the tables consistent.
use syno_plex_change_monitor.Db.Repo.Keys.{
  contains-last, find_folder-All, ok-injective, replace_folder-IsConsistent, through,
}
use syno_plex_change_monitor.Base.{
  ℕ, ◌≡◌, refl, sym, ◌∙◌, true, false, not, Option, none, some, List, [], ◌∷◌, ◌++◌, ◌==◌, nat_eq,
  list_eq, contains, arith,
}
use mathlib.Core.Path.{subst}
use syno_plex_change_monitor.Base.Distinct.{Distinct, Distinct-append_one, Distinct-map-filter}
use syno_plex_change_monitor.Base.Lists.{filter, All, All-map, All-append, All-filter}
use syno_plex_change_monitor.Base.Text.{Text}
use syno_plex_change_monitor.Models.{Server, Folder, FileType}
use syno_plex_change_monitor.Db.Schemas.{
  normalize_extensions, FolderCreate, FolderUpdate, Change, unset, sent,
}
use syno_plex_change_monitor.Db.Tables.{
  Tables, Result, ok, err, key_error, integrity_error, filetypes_of, find_server, find_folder,
  replace_folder, server_ids, folder_ids, filetype_ids, folders_of,
}
use syno_plex_change_monitor.Db.Tables.Consistent.{
  Belongs, Attached, IsConsistent, find_server-some, find_folder-some, folder_ids-replace_folder,
}
use syno_plex_change_monitor.Db.Tables.Updates.{
  contains-map_append_one, map-append_one, remove_folders-IsConsistent,
}
use syno_plex_change_monitor.Db.Repo.{
  set_required, set_nullable, LoadedFolder, add_filetypes, add_folder, add_folders,
  set_server_folders, create_folder,
}
use syno_plex_change_monitor.Db.Repo.Extensions.{
  update_found, set_extensions, replace_filetypes, renew_filetypes, update_folder, set_filetypes,
}

module _ (fresh : List ℕ → ℕ) (unused : (ids : List ℕ) → contains ids (fresh ids) ≡ false) where
  add_filetypes-keeps :
      (folder_id : ℕ) (extensions : List Text) (filetypes : List FileType) (folders : List Folder)
      → contains (folder_ids folders) folder_id ≡ true
      → Distinct (filetype_ids filetypes)
      → All (Attached folders) filetypes
      → Distinct (filetype_ids (add_filetypes fresh folder_id extensions filetypes))
        × All (Attached folders) (add_filetypes fresh folder_id extensions filetypes)
  unfolding add_filetypes
  add_filetypes-keeps folder_id [] filetypes folders k d h = (d, h)
  add_filetypes-keeps folder_id (ext ∷ extensions) filetypes folders k d h =
      let row : FileType = record {
        id = fresh (filetype_ids filetypes);
        folder_id = folder_id;
        extension = ext;
      } in
      add_filetypes-keeps folder_id extensions (filetypes ++ (row ∷ [])) folders k
        (subst Distinct (sym (map-append_one (λ (x : FileType). x.id) filetypes row))
          (Distinct-append_one (filetype_ids filetypes) row.id d (unused (filetype_ids filetypes))))
        (All-append (Attached folders) filetypes (row ∷ []) h (k, tt))

  add_folder-IsConsistent :
      (server_id : ℕ) (input : FolderCreate) (t : Tables)
      → contains (server_ids t.servers) server_id ≡ true
      → IsConsistent t
      → IsConsistent (add_folder fresh server_id input t).1
  unfolding add_folder
  add_folder-IsConsistent server_id input t k c =
      let row = (add_folder fresh server_id input t).0 in
      let (d, a) =
        add_filetypes-keeps row.id input.extensions t.filetypes (t.folders ++ (row ∷ []))
          (contains-last t.folders row) c.filetypes
          (All-map (Attached t.folders) (Attached (t.folders ++ (row ∷ [])))
            (λ x h. contains-map_append_one (λ (f : Folder). f.id) t.folders row x.folder_id h)
            t.filetypes c.attached) in
      record {
        servers = c.servers;
        unique_names = c.unique_names;
        folders = subst Distinct (sym (map-append_one (λ (f : Folder). f.id) t.folders row)) (
            Distinct-append_one (folder_ids t.folders) row.id c.folders
              (unused (folder_ids t.folders)));
        filetypes = d;
        belong = All-append (Belongs t.servers) t.folders (row ∷ []) c.belong (k, tt);
        attached = a;
      }

  add_folders-IsConsistent :
      (server_id : ℕ) (folders : List FolderCreate) (t : Tables)
      → contains (server_ids t.servers) server_id ≡ true
      → IsConsistent t
      → IsConsistent (add_folders fresh server_id folders t)
  unfolding add_folders
  add_folders-IsConsistent server_id [] t k c = c
  add_folders-IsConsistent server_id (input ∷ folders) t k c =
      add_folders-IsConsistent server_id folders (add_folder fresh server_id input t).1
        (unfold add_folder in k) (add_folder-IsConsistent server_id input t k c)

  pub set_server_folders-IsConsistent :
      (server_id : ℕ) (folders : List FolderCreate) (t : Tables)
      → contains (server_ids t.servers) server_id ≡ true
      → IsConsistent t
      → IsConsistent (set_server_folders fresh server_id folders t)
  unfolding set_server_folders
  set_server_folders-IsConsistent server_id folders t k c =
      remove_folders-IsConsistent (folder_ids (folders_of server_id t.folders)) _
        (add_folders-IsConsistent server_id folders t k c)

  pub create_folder-IsConsistent :
      (server_id : ℕ) (input : FolderCreate) (t next : Tables) (row : Folder)
      → IsConsistent t
      → create_folder fresh server_id input t ≡ ok (row, next)
      → IsConsistent next
  unfolding create_folder
  create_folder-IsConsistent server_id input t next row c e =
      go (find_server server_id t.servers) refl e
    where
      go :
          (o : Option Server)
          → find_server server_id t.servers ≡ o
          → elim o [ none ↦ err integrity_error | some _ ↦ ok (add_folder fresh server_id input t) ]
            ≡ ok (row, next)
          → IsConsistent next
      go none q e = absurd (ground arith)
      go (some s) q e =
          subst (λ (p : Folder × Tables). IsConsistent p.1) (ok-injective _ _ e)
            (add_folder-IsConsistent server_id input t (find_server-some server_id t.servers s q).1
              c)

  replace_filetypes-IsConsistent :
      (lower : Text → Text) (folder_id : ℕ) (extensions : List Text) (t : Tables)
      → contains (folder_ids t.folders) folder_id ≡ true
      → IsConsistent t
      → IsConsistent (replace_filetypes fresh lower folder_id extensions t)
  unfolding replace_filetypes
  replace_filetypes-IsConsistent lower folder_id extensions t k c =
      let (d, a) =
        add_filetypes-keeps folder_id (normalize_extensions lower extensions)
          (filter (λ x. not (x.folder_id == folder_id)) t.filetypes) t.folders k
          (Distinct-map-filter (λ (x : FileType). x.id) (λ x. not (x.folder_id == folder_id))
            t.filetypes c.filetypes)
          (All-filter (Attached t.folders) (λ x. not (x.folder_id == folder_id)) t.filetypes
            c.attached) in
      record {
        servers = c.servers;
        unique_names = c.unique_names;
        folders = c.folders;
        filetypes = d;
        belong = c.belong;
        attached = a;
      }

  renew_filetypes-IsConsistent :
      (lower : Text → Text) (folder_id : ℕ) (extensions : List Text) (t : Tables)
      → contains (folder_ids t.folders) folder_id ≡ true
      → IsConsistent t
      → IsConsistent (renew_filetypes fresh lower folder_id extensions t)
  unfolding renew_filetypes
  renew_filetypes-IsConsistent lower folder_id extensions t k c =
      let old = filetype_ids (filetypes_of folder_id t.filetypes) in
      let added =
        add_filetypes fresh folder_id (normalize_extensions lower extensions) t.filetypes in
      let (d, a) =
        add_filetypes-keeps folder_id (normalize_extensions lower extensions) t.filetypes t.folders
          k c.filetypes c.attached in
      record {
        servers = c.servers;
        unique_names = c.unique_names;
        folders = c.folders;
        filetypes =
            Distinct-map-filter (λ (x : FileType). x.id) (λ x. not (contains old x.id)) added d;
        belong = c.belong;
        attached = All-filter (Attached t.folders) (λ x. not (contains old x.id)) added a;
      }

  set_extensions-IsConsistent :
      (lower : Text → Text) (folder_id : ℕ) (change : Change (List Text)) (t : Tables)
      → contains (folder_ids t.folders) folder_id ≡ true
      → IsConsistent t
      → IsConsistent (set_extensions fresh lower folder_id change t)
  set_extensions-IsConsistent lower folder_id unset t k c = c
  set_extensions-IsConsistent lower folder_id (sent none) t k c = c
  set_extensions-IsConsistent lower folder_id (sent (some extensions)) t k c =
      renew_filetypes-IsConsistent lower folder_id extensions t k c

  pub update_folder-IsConsistent :
      (lower : Text → Text) (id : ℕ) (update : FolderUpdate) (t next : Tables)
      (folder : LoadedFolder)
      → IsConsistent t
      → update_folder fresh lower id update t ≡ ok (folder, next)
      → IsConsistent next
  unfolding update_folder
  update_folder-IsConsistent lower id update t next folder c = go (find_folder id t.folders) refl
    where
      stored :
          (old : Folder)
          → find_folder id t.folders ≡ some old
          → (row : Folder) → row.id ≡ old.id
          → row.server_id ≡ old.server_id
          → IsConsistent (
              set_extensions fresh lower row.id update.extensions
                (record t { folders = replace_folder row t.folders }))
      stored old q row i j =
          let (k, there) = find_folder-some id t.folders old q in
          set_extensions-IsConsistent lower row.id update.extensions
            (record t { folders = replace_folder row t.folders })
            (subst (λ ids. contains ids row.id ≡ true)
              (sym (folder_ids-replace_folder row t.folders))
              (subst (λ k. contains (folder_ids t.folders) k ≡ true) (sym (i ∙ k)) there))
            (replace_folder-IsConsistent t row c (
              subst (λ k. contains (server_ids t.servers) k ≡ true) (sym j)
                (find_folder-All (Belongs t.servers) id t.folders old c.belong q)))

      go :
          (o : Option Folder)
          → find_folder id t.folders ≡ o
          → update_found fresh lower update t o ≡ ok (folder, next)
          → IsConsistent next
      go none q e = absurd (ground arith)
      go (some old) q e =
          through (λ p. IsConsistent p.1) (set_required update.path old.path) _ (folder, next)
            (λ path _.
              through (λ p. IsConsistent p.1) (set_required update.enabled old.enabled) _
                (folder, next)
                (λ enabled _ e.
                  subst (λ (p : LoadedFolder × Tables). IsConsistent p.1) (ok-injective _ _ e)
                    (stored old q
                      (record old {
                        path = path;
                        library_id = set_nullable update.library_id old.library_id;
                        enabled = enabled;
                      })
                      refl refl)))
            e

  pub set_filetypes-IsConsistent :
      (lower : Text → Text) (id : ℕ) (extensions : List Text) (t next : Tables)
      (rows : List FileType)
      → IsConsistent t
      → set_filetypes fresh lower id extensions t ≡ ok (rows, next)
      → IsConsistent next
  unfolding set_filetypes
  set_filetypes-IsConsistent lower id extensions t next rows c = go (find_folder id t.folders) refl
    where
      set_found : Option Folder → Result (List FileType × Tables)
      set_found none = err key_error
      set_found (some row) =
          let after = replace_filetypes fresh lower row.id extensions t in
          ok (filetypes_of row.id after.filetypes, after)

      go :
          (o : Option Folder)
          → find_folder id t.folders ≡ o
          → set_found o ≡ ok (rows, next)
          → IsConsistent next
      go none q e = absurd (ground arith)
      go (some old) q e =
          let (k, there) = find_folder-some id t.folders old q in
          subst (λ (p : List FileType × Tables). IsConsistent p.1) (ok-injective _ _ e)
            (replace_filetypes-IsConsistent lower old.id extensions t
              (subst (λ k. contains (folder_ids t.folders) k ≡ true) (sym k) there) c)
