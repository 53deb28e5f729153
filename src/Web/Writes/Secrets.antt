-- ===== src/Web/Writes/Secrets.antt =====
-- The methods of the repository and the secrets that the gate asks for.
pub mod Methods
use syno_plex_change_monitor.Base.{
  false, ◌⊎◌, inl, inr, ℕ, ◌≡◌, refl, sym, Bool, true, not, Option, none, some, List, [], ◌∷◌, ◌++◌,
  ◌==◌, nat_eq, arith, Bool-cases,
}
use mathlib.Core.Path.{subst}
use syno_plex_change_monitor.Base.Lists.{All, All-append, All-filter}
use syno_plex_change_monitor.Base.Text.{Text}
use syno_plex_change_monitor.Models.{Server, Folder, ServerType}
use syno_plex_change_monitor.Db.Schemas.{
  ServerCreate, ServerUpdate, FolderCreate, FolderUpdate, Change, unset, sent,
}
use syno_plex_change_monitor.Db.Tables.{
  server_ids, ◌>>=◌, Tables, Result, ok, err, integrity_error, find_server, find_folder, name_taken,
  replace_server, remove_server, remove_folders,
}
use syno_plex_change_monitor.Db.Repo.{
  LoadedFolder, encrypt_option, set_secret, set_required, server_row, add_folder, add_folders,
  set_server_folders, create_folder, create_server, create_server_with_folders, update_server,
  update_server_with_folders, updated_row, commit_server, delete_server, delete_folder,
}
use syno_plex_change_monitor.Db.Repo.Extensions.{
  replace_filetypes, set_extensions, update_found, update_folder,
}
use syno_plex_change_monitor.Db.Repo.Keys.{through, ok-injective}
use syno_plex_change_monitor.Db.Repo.ServerKeys.{IsUpdate, updated_row-IsUpdate}
use syno_plex_change_monitor.Web.TypeSpecs.{server_type_specs}
use syno_plex_change_monitor.Web.Writes.{
  is_present, is_stored, secret_satisfied, update_satisfied, resulting_type, resulting_has_secret,
}

-- The type of a server requires no secret, or one is stored.
abbrev pub HasSecret : Server → Type 0
HasSecret s =
    ((server_type_specs s.type).requires_secret ≡ false) ⊎ (is_stored s.secret_encrypted ≡ true)

abbrev pub HasSecrets : Tables → Type 0
HasSecrets t = All HasSecret t.servers

satisfied-stored :
    (type : ServerType) (has : Bool)
    → secret_satisfied type has ≡ true
    → ((server_type_specs type).requires_secret ≡ false) ⊎ (has ≡ true)
unfolding secret_satisfied
satisfied-stored type has h = ground arith

is_stored-encrypt :
    (encrypt : Text → Text) (secret : Option Text)
    → is_present secret ≡ true
    → is_stored (encrypt_option encrypt secret) ≡ true
is_stored-encrypt encrypt none h = absurd (ground arith)
is_stored-encrypt encrypt (some secret) h = refl

is_stored-set_secret :
    (encrypt : Text → Text) (change : Change Text) (old : Option Text)
    → resulting_has_secret change old ≡ true
    → is_stored (set_secret encrypt change old) ≡ true
is_stored-set_secret encrypt unset old h = h
is_stored-set_secret encrypt (sent secret) old h = is_stored-encrypt encrypt secret h

resulting_type-set_required :
    (change : Change ServerType) (old type : ServerType)
    → set_required change old ≡ ok type
    → resulting_type change old ≡ type
resulting_type-set_required unset old type e = ok-injective old type e
resulting_type-set_required (sent none) old type e = absurd (ground arith)
resulting_type-set_required (sent (some new)) old type e = ok-injective new type e

updated-HasSecret :
    (encrypt : Text → Text) (update : ServerUpdate) (old row : Server)
    → update_satisfied update old ≡ true
    → IsUpdate encrypt update old row
    → HasSecret row
unfolding update_satisfied
updated-HasSecret encrypt update old row h (i, t, k) =
    let type = resulting_type-set_required update.type old.type row.type t in
    elim (satisfied-stored (resulting_type update.type old.type)
      (resulting_has_secret update.secret old.secret_encrypted) h) [
        | inl free ↦
            inl (subst (λ type. (server_type_specs type).requires_secret ≡ false) type free)
        | inr has ↦ inr (
            subst (λ stored. is_stored stored ≡ true) (sym k)
              (is_stored-set_secret encrypt update.secret old.secret_encrypted has))
      ]

All-replace_server :
    (P : Server → Type 0) (row : Server) (servers : List Server)
    → P row
    → All P servers
    → All P (replace_server row servers)
unfolding replace_server
All-replace_server P row [] p h = tt
All-replace_server P row (s ∷ servers) p (h, hs) = elim (Bool-cases (s.id == row.id)) [
  | inl e ↦ rw e (p, All-replace_server P row servers p hs)
  | inr e ↦ rw e (h, All-replace_server P row servers p hs)
]

found_server :
    (id : ℕ) (t : Tables) (o : Option Server)
    → HasSecrets t
    → HasSecrets (elim o [ none ↦ t | some row ↦ remove_server row.id t ])
unfolding remove_server remove_folders
found_server id t none h = h
found_server id t (some row) h = All-filter HasSecret (λ s. not (s.id == row.id)) t.servers h

pub delete_server-HasSecrets :
    (id : ℕ) (t : Tables) → HasSecrets t → HasSecrets (delete_server id t)
unfolding delete_server
delete_server-HasSecrets id t = found_server id t (find_server id t.servers)

found_folder :
    (t : Tables) (o : Option Folder)
    → HasSecrets t
    → HasSecrets (elim o [ none ↦ t | some row ↦ remove_folders (row.id ∷ []) t ])
unfolding remove_folders
found_folder t none h = h
found_folder t (some row) h = h

pub delete_folder-HasSecrets :
    (id : ℕ) (t : Tables) → HasSecrets t → HasSecrets (delete_folder id t)
unfolding delete_folder
delete_folder-HasSecrets id t = found_folder t (find_folder id t.folders)
