-- ===== src/Db/Repo/ServerKeys.antt =====
-- The methods of the repository that write servers keep the keys of the tables consistent.
use syno_plex_change_monitor.Base.{
  ℕ, ◌≡◌, refl, sym, ◌∙◌, true, false, Option, none, some, List, [], ◌∷◌, ◌++◌, nat_eq, contains,
  arith, Bool-cases, inl, inr,
}
use mathlib.Core.Path.{subst}
use syno_plex_change_monitor.Base.Text.{Text}
use syno_plex_change_monitor.Models.{Server}
use syno_plex_change_monitor.Db.Schemas.{ServerCreate, ServerUpdate, FolderCreate}
use syno_plex_change_monitor.Db.Tables.{
  ◌>>=◌, Tables, Result, ok, err, key_error, find_server, name_taken, replace_server, server_ids,
  remove_server,
}
use syno_plex_change_monitor.Db.Tables.Consistent.{
  IsConsistent, find_server-some, server_ids-replace_server,
}
use syno_plex_change_monitor.Db.Tables.Updates.{
  append_server-IsConsistent, replace_server-IsConsistent, remove_server-IsConsistent,
}
use syno_plex_change_monitor.Db.Repo.{
  set_required, set_secret, server_row, set_server_folders, create_server,
  create_server_with_folders, update_server, update_server_with_folders, updated_row, commit_server,
  delete_server,
}
use syno_plex_change_monitor.Db.Repo.Keys.{through, ok-injective, contains-last_server}
use syno_plex_change_monitor.Db.Repo.Keys.Folders.{set_server_folders-IsConsistent}

-- What a method that gives back a server leaves: consistent tables that hold it.
abbrev pub Stored : Server × Tables → Type 0
Stored p = IsConsistent p.1 × (contains (server_ids p.1.servers) p.0.id ≡ true)

removed_found-IsConsistent :
    (t : Tables) (o : Option Server)
    → IsConsistent t
    → IsConsistent (elim o [ none ↦ t | some row ↦ remove_server row.id t ])
removed_found-IsConsistent t none c = c
removed_found-IsConsistent t (some row) c = remove_server-IsConsistent row.id t c

pub delete_server-IsConsistent :
    (id : ℕ) (t : Tables) → IsConsistent t → IsConsistent (delete_server id t)
unfolding delete_server
delete_server-IsConsistent id t = removed_found-IsConsistent t (find_server id t.servers)

-- What the other writes rely on of the row after an update.
abbrev pub IsUpdate : (Text → Text) → ServerUpdate → Server → Server → Type 0
IsUpdate encrypt update old row =
    (row.id ≡ old.id)
    × (set_required update.type old.type ≡ ok row.type)
    × (row.secret_encrypted ≡ set_secret encrypt update.secret old.secret_encrypted)

pub updated_row-IsUpdate :
    (encrypt : Text → Text) (update : ServerUpdate) (old row : Server)
    → updated_row encrypt update old ≡ ok row
    → IsUpdate encrypt update old row
unfolding updated_row
updated_row-IsUpdate encrypt update old row =
    let P : Server → Type 0 = IsUpdate encrypt update old in
    through P (set_required update.name old.name) _ row λ _ _.
      through P (set_required update.type old.type) _ row λ type typed.
        through P (set_required update.base_url old.base_url) _ row λ _ _.
          through P (set_required update.verify_tls old.verify_tls) _ row λ _ _.
            through P (set_required update.timeout_seconds old.timeout_seconds) _ row λ _ _.
              through P (set_required update.scan_mode old.scan_mode) _ row λ _ _.
                through P (set_required update.debounce_mode old.debounce_mode) _ row λ _ _.
                  through P
                    (set_required update.debounce_window_seconds old.debounce_window_seconds) _ row
                    λ _ _.
                      through P (set_required update.retry_attempts old.retry_attempts) _ row λ _ _.
                        through P (set_required update.enabled old.enabled) _ row λ _ _.
                          through P
                            (set_required update.webhook_payload_preset old.webhook_payload_preset)
                            _ row λ _ _. λ e. subst P (ok-injective _ _ e) (refl, typed, refl)

commit_server-Stored :
    (row : Server) (t next : Tables) (server : Server)
    → IsConsistent t
    → contains (server_ids t.servers) row.id ≡ true
    → commit_server row t ≡ ok (server, next)
    → Stored (server, next)
unfolding commit_server
commit_server-Stored row t next server c k e =
    elim (Bool-cases (name_taken row.id row.name t.servers)) [
      | inl q ↦ absurd (ground arith)
      | inr q ↦
          let e' : ok (row, record t { servers = replace_server row t.servers })
              ≡ ok (server, next) =
            rw q at e in
          subst Stored (ok-injective _ _ e') (
            replace_server-IsConsistent t row c q,
            subst (λ ids. contains ids row.id ≡ true)
                (sym (server_ids-replace_server row t.servers)) k,
          )
    ]

module _ (fresh : List ℕ → ℕ) (unused : (ids : List ℕ) → contains ids (fresh ids) ≡ false)
    (encrypt : Text → Text) where
  abbrev with_folders : List FolderCreate → Server × Tables → Result (Server × Tables)
  with_folders folders p = ok (p.0, set_server_folders fresh p.0.id folders p.1)

  with_folders-IsConsistent :
      (folders : List FolderCreate) (r : Result (Server × Tables)) (b : Server × Tables)
      → ((p : Server × Tables) → r ≡ ok p → Stored p)
      → (r >>= with_folders folders) ≡ ok b
      → IsConsistent b.1
  with_folders-IsConsistent folders (err x) b h e = absurd (ground arith)
  with_folders-IsConsistent folders (ok p) b h e =
      let (d, k) = h p refl in
      subst (λ (p : Server × Tables). IsConsistent p.1) (ok-injective _ _ e)
        (set_server_folders-IsConsistent fresh unused p.0.id folders p.1 k d)

  pub create_server-Stored :
      (input : ServerCreate) (t next : Tables) (server : Server)
      → IsConsistent t
      → create_server fresh encrypt input t ≡ ok (server, next)
      → Stored (server, next)
  unfolding create_server
  create_server-Stored input t next server c e =
      let row = server_row encrypt (fresh (server_ids t.servers)) input in
      elim (Bool-cases (name_taken row.id row.name t.servers)) [
        | inl q ↦ absurd (ground arith)
        | inr q ↦
            let e' : ok (row, record t { servers = t.servers ++ (row ∷ []) }) ≡ ok (server, next) =
              rw q at e in
            subst Stored (ok-injective _ _ e') (
              append_server-IsConsistent t row c
                  (unfold server_row in unused (server_ids t.servers)) q,
              contains-last_server t.servers row,
            )
      ]

  pub create_server_with_folders-IsConsistent :
      (input : ServerCreate) (folders : List FolderCreate) (t next : Tables) (server : Server)
      → IsConsistent t
      → create_server_with_folders fresh encrypt input folders t ≡ ok (server, next)
      → IsConsistent next
  unfolding create_server_with_folders
  create_server_with_folders-IsConsistent input folders t next server c =
      with_folders-IsConsistent folders (create_server fresh encrypt input t) (server, next)
        (λ p e. create_server-Stored input t p.1 p.0 c e)

  pub update_server-Stored :
      (id : ℕ) (update : ServerUpdate) (t next : Tables) (server : Server)
      → IsConsistent t
      → update_server fresh encrypt id update t ≡ ok (server, next)
      → Stored (server, next)
  unfolding update_server
  update_server-Stored id update t next server c = go (find_server id t.servers) refl
    where
      commit :
          (old : Server) (r : Result Server)
          → find_server id t.servers ≡ some old
          → updated_row encrypt update old ≡ r
          → (r >>= λ row. commit_server row t) ≡ ok (server, next)
          → Stored (server, next)
      commit old (err x) q u e = absurd (ground arith)
      commit old (ok row) q u e =
          let (i, k) = find_server-some id t.servers old q in
          commit_server-Stored row t next server c
            (subst (λ k. contains (server_ids t.servers) k ≡ true)
              (sym ((updated_row-IsUpdate encrypt update old row u).0 ∙ i)) k)
            e

      go :
          (o : Option Server)
          → find_server id t.servers ≡ o
          → elim o [
            | none ↦ err key_error
            | some old ↦ updated_row encrypt update old >>= λ row. commit_server row t
          ]
            ≡ ok (server, next)
          → Stored (server, next)
      go none q e = absurd (ground arith)
      go (some old) q e = commit old (updated_row encrypt update old) q refl e

  pub update_server_with_folders-IsConsistent :
      (id : ℕ) (update : ServerUpdate) (folders : List FolderCreate) (t next : Tables)
      (server : Server)
      → IsConsistent t
      → update_server_with_folders fresh encrypt id update folders t ≡ ok (server, next)
      → IsConsistent next
  unfolding update_server_with_folders
  update_server_with_folders-IsConsistent id update folders t next server c =
      with_folders-IsConsistent folders (update_server fresh encrypt id update t) (server, next)
        (λ p e. update_server-Stored id update t p.1 p.0 c e)

committed-IsUpdate :
    (encrypt : Text → Text) (update : ServerUpdate) (old row : Server) (t : Tables)
    (saved : Server × Tables)
    → IsUpdate encrypt update old row
    → commit_server row t ≡ ok saved
    → IsUpdate encrypt update old saved.0
unfolding commit_server
committed-IsUpdate encrypt update old row t saved h e =
    elim (Bool-cases (name_taken row.id row.name t.servers)) [
      | inl q ↦ absurd (ground arith)
      | inr q ↦
          let e' : ok (row, record t { servers = replace_server row t.servers }) ≡ ok saved =
            rw q at e in
          subst (λ (p : Server × Tables). IsUpdate encrypt update old p.0) (ok-injective _ _ e') h
    ]

pub update_server-IsUpdate :
    (fresh : List ℕ → ℕ) (encrypt : Text → Text) (id : ℕ) (update : ServerUpdate) (t : Tables)
    (old : Server) (saved : Server × Tables)
    → find_server id t.servers ≡ some old
    → update_server fresh encrypt id update t ≡ ok saved
    → IsUpdate encrypt update old saved.0
unfolding update_server
update_server-IsUpdate fresh encrypt id update t old saved q e =
    let e' : (updated_row encrypt update old >>= λ row. commit_server row t) ≡ ok saved =
      rw (q, update_server) at e in
    through (λ (b : Server × Tables). IsUpdate encrypt update old b.0)
      (updated_row encrypt update old) (λ row. commit_server row t) saved
      (λ row u.
        committed-IsUpdate encrypt update old row t saved
          (updated_row-IsUpdate encrypt update old row u))
      e'
