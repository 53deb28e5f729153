-- ===== src/Web/Api/Conflict.antt =====
-- A name that is taken, in the JSON API and in the forms.
use syno_plex_change_monitor.Base.{
  ℕ, ◌≡◌, ◌≢◌, refl, false, true, arith, none, some, List, [], ◌∷◌, nat_eq, list_eq, contains,
}
use syno_plex_change_monitor.Base.Text.{Text}
use syno_plex_change_monitor.Models.{Server}
use syno_plex_change_monitor.Db.Schemas.{
  ServerCreate, ServerUpdate, FolderCreate, Change, unset, sent,
}
use syno_plex_change_monitor.Db.Tables.{
  Tables, Result, ok, err, integrity_error, key_error, ◌>>=◌, find_server, name_taken, server_ids,
}
use syno_plex_change_monitor.Db.Tables.Consistent.{find_server-some}
use syno_plex_change_monitor.Db.Repo.{
  get_server, create_server, update_server, update_server_with_folders, set_required, updated_row,
  commit_server, server_row,
}
use syno_plex_change_monitor.Engine.{Machine}
use syno_plex_change_monitor.Web.Auth.{require_api_auth, passed}
use syno_plex_change_monitor.Web.Api.{Service, failed, guarded, tables_of, store_of}
use syno_plex_change_monitor.Web.Api.Servers.{create_one, update_one}
use syno_plex_change_monitor.Web.Writes.{
  refused, name_conflict, secret_satisfied, is_present, update_satisfied, apply_server_create,
  apply_server_update, apply_server_update_with_folders,
}

-- The name of a row that is stored is taken for every other row.
name_taken-of_found :
    (id other_id : ℕ) (servers : List Server) (other : Server)
    → find_server other_id servers ≡ some other
    → id ≢ other_id
    → name_taken id other.name servers ≡ true
unfolding name_taken find_server
name_taken-of_found id other_id [] other f n = absurd (ground arith)
name_taken-of_found id other_id (s ∷ servers) other f n = elim (nat_eq.dec s.id other_id) [
  | yes e ↦ ground arith
  | no m ↦ ground (arith, name_taken-of_found id other_id servers other (ground arith) n)
]

-- The row of an update has the given name and id, or the update breaks a constraint.
abbrev NamedRow : Text → ℕ → Result Server → Type 0
NamedRow name id (ok row) = (row.name ≡ name) × (row.id ≡ id)
NamedRow name id (err integrity_error) = Unit
NamedRow name id (err key_error) = ⊥

module _ (name : Text) (id : ℕ) where
  required-NamedRow :
      {A : Type 0} (change : Change A) (old : A) (f : A → Result Server)
      → ((a : A) → NamedRow name id (f a))
      → NamedRow name id (set_required change old >>= f)
  required-NamedRow unset old f h = h old
  required-NamedRow (sent none) old f h = tt
  required-NamedRow (sent (some a)) old f h = h a

  updated_row-NamedRow :
      (encrypt : Text → Text) (update : ServerUpdate) (old : Server)
      → update.name ≡ sent (some name)
      → old.id ≡ id
      → NamedRow name id (updated_row encrypt update old)
  unfolding updated_row
  updated_row-NamedRow encrypt update old e i = rw e (
      required-NamedRow update.type old.type _ λ _.
        required-NamedRow update.base_url old.base_url _ λ _.
          required-NamedRow update.verify_tls old.verify_tls _ λ _.
            required-NamedRow update.timeout_seconds old.timeout_seconds _ λ _.
              required-NamedRow update.scan_mode old.scan_mode _ λ _.
                required-NamedRow update.debounce_mode old.debounce_mode _ λ _.
                  required-NamedRow update.debounce_window_seconds old.debounce_window_seconds _
                    λ _. required-NamedRow update.retry_attempts old.retry_attempts _ λ _.
                      required-NamedRow update.enabled old.enabled _ λ _.
                        required-NamedRow update.webhook_payload_preset old.webhook_payload_preset _
                          λ _. (refl, i))

commit-refused :
    (name : Text) (id : ℕ) (t : Tables) (r : Result Server)
    → NamedRow name id r
    → name_taken id name t.servers ≡ true
    → (r >>= λ row. commit_server row t) ≡ err integrity_error
unfolding commit_server
commit-refused name id t (ok row) (n, i) h = rw (n, i, h) refl
commit-refused name id t (err integrity_error) n h = refl
commit-refused name id t (err key_error) n h = absurd n

module _ (fresh : List ℕ → ℕ) (unused : (ids : List ℕ) → contains ids (fresh ids) ≡ false)
    (encrypt : Text → Text) (t : Tables) (other_id : ℕ) (other : Server)
    (stored : get_server other_id t ≡ some other) where
  create_server-taken :
      (input : ServerCreate)
      → input.name ≡ other.name
      → create_server fresh encrypt input t ≡ err integrity_error
  unfolding create_server server_row get_server
  create_server-taken input same =
      let (_, used) = find_server-some other_id t.servers other stored in
      let apart : fresh (server_ids t.servers) ≢ other_id =
        λ e. absurd (ground (arith, e, unused (server_ids t.servers), used)) in
      rw
        (
          same,
          name_taken-of_found (fresh (server_ids t.servers)) other_id t.servers other stored apart,
        )
        refl

  update_server-taken :
      (id : ℕ) (update : ServerUpdate) (existing : Server)
      → get_server id t ≡ some existing
      → id ≢ other_id
      → update.name ≡ sent (some other.name)
      → update_server fresh encrypt id update t ≡ err integrity_error
  unfolding update_server get_server
  update_server-taken id update existing found apart named =
      let here : find_server id t.servers ≡ some existing = found in
      rw (here, update_server)
        (commit-refused other.name id t (updated_row encrypt update existing)
          (updated_row-NamedRow other.name id encrypt update existing named
            (find_server-some id t.servers existing found).0)
          (name_taken-of_found id other_id t.servers other stored apart))

module _ {W : Type 0} (m : Machine W) (fresh : List ℕ → ℕ) (encrypt : Text → Text) where
  -- Where a new row gets an id that is not in use, the guard lets pass, a server with some name is
  -- stored, another server is to be updated, and neither write lacks a secret: a creation of a
  -- server of that name, and a change of the other server's name to it, whatever else they give,
  -- change nothing. The JSON API answers 409 to the creation but 500 to the change, for which
  -- the core of the form reports the conflict of names.
  pub conflict_lem :
      ((ids : List ℕ) → contains ids (fresh ids) ≡ false)
      → (input : ServerCreate) (id other_id : ℕ) (update : ServerUpdate)
        (folders : List FolderCreate) (existing other : Server) (s : Service W)
      → require_api_auth s.site ≡ passed
      → get_server other_id (tables_of s) ≡ some other
      → get_server id (tables_of s) ≡ some existing
      → id ≢ other_id
      → input.name ≡ other.name
      → update.name ≡ sent (some other.name)
      → secret_satisfied input.type (is_present input.secret) ≡ true
      → update_satisfied update existing ≡ true
      → (create_one m fresh encrypt input s ≡ (failed 409, s))
        × (update_one m fresh encrypt id update s ≡ (failed 500, s))
        × (apply_server_update_with_folders m fresh encrypt id update folders (store_of s)
            ≡ (refused name_conflict, store_of s))
  unfolding create_one update_one guarded apply_server_create apply_server_update
      apply_server_update_with_folders update_server_with_folders
  conflict_lem unused input id other_id update folders existing other s pass stored found apart same
        named gate allowed =
      let taken =
        create_server-taken fresh unused encrypt (tables_of s) other_id other stored input same in
      let clash =
        update_server-taken fresh unused encrypt (tables_of s) other_id other stored id update
          existing found apart named in
      (
        rw (pass, gate, taken) refl,
        rw (pass, found, allowed, clash) refl,
        rw (found, allowed, clash) refl,
      )
