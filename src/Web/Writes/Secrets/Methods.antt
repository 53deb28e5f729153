-- ===== src/Web/Writes/Secrets/Methods.antt =====
-- The methods of the repository that write keep the secrets that the gate asks for.
use syno_plex_change_monitor.Web.Writes.Secrets.{
  All-replace_server, HasSecret, HasSecrets, is_stored-encrypt, satisfied-stored, updated-HasSecret,
}
use syno_plex_change_monitor.Base.{
  ℕ, ◌≡◌, refl, sym, true, Option, none, some, List, [], ◌∷◌, ◌++◌, nat_eq, arith, Bool-cases, inl,
  inr,
}
use mathlib.Core.Path.{subst}
use syno_plex_change_monitor.Base.Lists.{All, All-append}
use syno_plex_change_monitor.Base.Text.{Text}
use syno_plex_change_monitor.Models.{Server, Folder}
use syno_plex_change_monitor.Db.Schemas.{
  ServerCreate, ServerUpdate, FolderCreate, FolderUpdate, Change, unset, sent,
}
use syno_plex_change_monitor.Db.Tables.{
  server_ids, ◌>>=◌, Tables, Result, ok, err, integrity_error, find_server, find_folder, name_taken,
  replace_server, remove_folders,
}
use syno_plex_change_monitor.Db.Repo.{
  LoadedFolder, set_required, server_row, add_folder, add_folders, set_server_folders,
  create_folder, create_server, create_server_with_folders, update_server,
  update_server_with_folders, updated_row, commit_server,
}
use syno_plex_change_monitor.Db.Repo.Extensions.{
  renew_filetypes, set_extensions, update_found, update_folder,
}
use syno_plex_change_monitor.Db.Repo.Keys.{through, ok-injective}
use syno_plex_change_monitor.Db.Repo.ServerKeys.{updated_row-IsUpdate}
use syno_plex_change_monitor.Web.Writes.{is_present, secret_satisfied, update_satisfied}

module _ (fresh : List ℕ → ℕ) where
  add_folders-servers :
      (server_id : ℕ) (folders : List FolderCreate) (t : Tables)
      → (add_folders fresh server_id folders t).servers ≡ t.servers
  unfolding add_folders add_folder
  add_folders-servers server_id [] t = refl
  add_folders-servers server_id (input ∷ folders) t =
      add_folders-servers server_id folders (add_folder fresh server_id input t).1

  set_server_folders-servers :
      (server_id : ℕ) (folders : List FolderCreate) (t : Tables)
      → (set_server_folders fresh server_id folders t).servers ≡ t.servers
  unfolding set_server_folders remove_folders
  set_server_folders-servers server_id folders t = add_folders-servers server_id folders t

  pub create_folder-HasSecrets :
      (server_id : ℕ) (input : FolderCreate) (t u : Tables) (row : Folder)
      → HasSecrets t
      → create_folder fresh server_id input t ≡ ok (row, u)
      → HasSecrets u
  unfolding create_folder
  create_folder-HasSecrets server_id input t u row h = go (find_server server_id t.servers)
    where
      go :
          (o : Option Server)
          → (elim o [
            | none ↦ err integrity_error
            | some _ ↦ ok (add_folder fresh server_id input t)
          ])
            ≡ ok (row, u)
          → HasSecrets u
      go none e = absurd (ground arith)
      go (some s) e =
          subst (λ (p : Folder × Tables). HasSecrets p.1) (ok-injective _ _ e)
            (unfold add_folder in h)

  set_extensions-servers :
      (lower : Text → Text) (folder_id : ℕ) (change : Change (List Text)) (t : Tables)
      → (set_extensions fresh lower folder_id change t).servers ≡ t.servers
  unfolding renew_filetypes
  set_extensions-servers lower folder_id unset t = refl
  set_extensions-servers lower folder_id (sent none) t = refl
  set_extensions-servers lower folder_id (sent (some extensions)) t = refl

  pub update_folder-HasSecrets :
      (lower : Text → Text) (id : ℕ) (update : FolderUpdate) (t u : Tables) (folder : LoadedFolder)
      → HasSecrets t
      → update_folder fresh lower id update t ≡ ok (folder, u)
      → HasSecrets u
  unfolding update_folder
  update_folder-HasSecrets lower id update t u folder h = go (find_folder id t.folders)
    where
      go : (o : Option Folder) → update_found fresh lower update t o ≡ ok (folder, u) → HasSecrets u
      go none e = absurd (ground arith)
      go (some old) e =
          through (λ p. HasSecrets p.1) (set_required update.path old.path) _ (folder, u)
            (λ path _.
              through (λ p. HasSecrets p.1) (set_required update.enabled old.enabled) _ (folder, u)
                (λ enabled _ e.
                  subst (λ (p : LoadedFolder × Tables). HasSecrets p.1) (ok-injective _ _ e)
                    (subst (All HasSecret)
                      (sym (set_extensions-servers lower old.id update.extensions _)) h)))
            e

  module _ (encrypt : Text → Text) where
    pub create_server-HasSecrets :
        (input : ServerCreate) (t u : Tables) (server : Server)
        → secret_satisfied input.type (is_present input.secret) ≡ true
        → HasSecrets t
        → create_server fresh encrypt input t ≡ ok (server, u)
        → HasSecrets u
    unfolding create_server server_row
    create_server-HasSecrets input t u server g h e =
        let row = server_row encrypt (fresh (server_ids t.servers)) input in
        elim (Bool-cases (name_taken row.id row.name t.servers)) [
          | inl q ↦ absurd (ground arith)
          | inr q ↦
              let e' : ok (row, record t { servers = t.servers ++ (row ∷ []) }) ≡ ok (server, u) =
                rw q at e in
              subst (λ (p : Server × Tables). HasSecrets p.1) (ok-injective _ _ e')
                (All-append HasSecret t.servers (row ∷ []) h (
                  elim (satisfied-stored input.type (is_present input.secret) g) [
                    | inl free ↦ inl free
                    | inr has ↦ inr (is_stored-encrypt encrypt input.secret has)
                  ],
                  tt,
                ))
        ]

    with_folders-HasSecrets :
        (folders : List FolderCreate) (r : Result (Server × Tables)) (b : Server × Tables)
        → ((p : Server × Tables) → r ≡ ok p → HasSecrets p.1)
        → (r >>= λ p. ok (p.0, set_server_folders fresh p.0.id folders p.1)) ≡ ok b
        → HasSecrets b.1
    with_folders-HasSecrets folders r b h =
        through (λ b. HasSecrets b.1) r _ b
          (λ p q e.
            subst (λ (b : Server × Tables). HasSecrets b.1) (ok-injective _ _ e)
              (subst (All HasSecret) (sym (set_server_folders-servers p.0.id folders p.1)) (h p q)))

    pub create_server_with_folders-HasSecrets :
        (input : ServerCreate) (folders : List FolderCreate) (t u : Tables) (server : Server)
        → secret_satisfied input.type (is_present input.secret) ≡ true
        → HasSecrets t
        → create_server_with_folders fresh encrypt input folders t ≡ ok (server, u)
        → HasSecrets u
    unfolding create_server_with_folders
    create_server_with_folders-HasSecrets input folders t u server g h =
        with_folders-HasSecrets folders (create_server fresh encrypt input t) (server, u)
          (λ p e. create_server-HasSecrets input t p.1 p.0 g h e)

    committed-HasSecrets :
        (row : Server) (t : Tables) (b : Server × Tables)
        → HasSecret row
        → HasSecrets t
        → commit_server row t ≡ ok b
        → HasSecrets b.1
    unfolding commit_server
    committed-HasSecrets row t b k h e = elim (Bool-cases (name_taken row.id row.name t.servers)) [
      | inl q ↦ absurd (ground arith)
      | inr q ↦
          let e' : ok (row, record t { servers = replace_server row t.servers }) ≡ ok b =
            rw q at e in
          subst (λ (p : Server × Tables). HasSecrets p.1) (ok-injective _ _ e')
            (All-replace_server HasSecret row t.servers k h)
    ]

    pub update_server-HasSecrets :
        (id : ℕ) (update : ServerUpdate) (existing : Server) (t : Tables) (b : Server × Tables)
        → find_server id t.servers ≡ some existing
        → update_satisfied update existing ≡ true
        → HasSecrets t
        → update_server fresh encrypt id update t ≡ ok b
        → HasSecrets b.1
    unfolding update_server
    update_server-HasSecrets id update existing t b q g h e =
        let e' : (updated_row encrypt update existing >>= λ row. commit_server row t) ≡ ok b =
          rw (q, update_server) at e in
        through (λ b. HasSecrets b.1) (updated_row encrypt update existing)
          (λ row. commit_server row t) b
          (λ row u.
            committed-HasSecrets row t b
              (updated-HasSecret encrypt update existing row g
                (updated_row-IsUpdate encrypt update existing row u))
              h)
          e'

    pub update_server_with_folders-HasSecrets :
        (id : ℕ) (update : ServerUpdate) (folders : List FolderCreate) (existing : Server)
        (t : Tables) (b : Server × Tables)
        → find_server id t.servers ≡ some existing
        → update_satisfied update existing ≡ true
        → HasSecrets t
        → update_server_with_folders fresh encrypt id update folders t ≡ ok b
        → HasSecrets b.1
    unfolding update_server_with_folders
    update_server_with_folders-HasSecrets id update folders existing t b q g h =
        with_folders-HasSecrets folders (update_server fresh encrypt id update t) b
          (λ p e. update_server-HasSecrets id update existing t p q g h e)
