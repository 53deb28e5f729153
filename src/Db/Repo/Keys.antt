-- ===== src/Db/Repo/Keys.antt =====
-- Every method of the repository keeps the keys of the tables consistent.
pub mod Folders
use syno_plex_change_monitor.Base.{
  ℕ, ◌≡◌, refl, sym, ◌∙◌, ap, true, false, not, Option, none, some, List, [], ◌∷◌, ◌++◌, ◌==◌,
  nat_eq, list_eq, contains, arith, Bool-cases, inl, inr,
}
use mathlib.Core.Path.{subst}
use syno_plex_change_monitor.Base.Distinct.{Distinct, Distinct-append_one, Distinct-map-filter}
use syno_plex_change_monitor.Base.Lists.{filter, All, All-map, All-append, All-filter}
use syno_plex_change_monitor.Base.Text.{Text}
use syno_plex_change_monitor.Models.{Server, Folder, FileType}
use syno_plex_change_monitor.Db.Schemas.{
  normalize_extensions, FolderCreate, FolderUpdate, Change, unset, sent,
}
use syno_plex_change_monitor.Db.Tables.{
  ◌>>=◌, Tables, Result, ok, err, key_error, integrity_error, filetypes_of, find_server,
  find_folder, replace_folder, server_ids, folder_ids, filetype_ids, folders_of, remove_folders,
}
use syno_plex_change_monitor.Db.Tables.Consistent.{
  Belongs, Attached, IsConsistent, find_server-some, find_folder-some, folder_ids-replace_folder,
}
use syno_plex_change_monitor.Db.Tables.Updates.{
  contains-map_append_one, map-append_one, remove_folders-IsConsistent,
}
use syno_plex_change_monitor.Db.Repo.{
  set_required, set_nullable, LoadedFolder, add_filetypes, add_folder, add_folders,
  set_server_folders, create_folder, delete_folder,
}
use syno_plex_change_monitor.Db.Repo.Extensions.{
  update_found, set_extensions, replace_filetypes, update_folder, set_filetypes,
}

find_folder-All :
    (P : Folder → Type 0) (id : ℕ) (folders : List Folder) (row : Folder)
    → All P folders
    → find_folder id folders ≡ some row
    → P row
unfolding find_folder
find_folder-All P id [] row h e = absurd (ground arith)
find_folder-All P id (f ∷ folders) row (h, hs) e = elim (nat_eq.dec f.id id) [
  | yes q ↦ subst P (ground arith) h
  | no q ↦ find_folder-All P id folders row hs (ground arith)
]

All-replace_folder :
    (P : Folder → Type 0) (row : Folder) (folders : List Folder)
    → P row
    → All P folders
    → All P (replace_folder row folders)
unfolding replace_folder
All-replace_folder P row [] p h = tt
All-replace_folder P row (f ∷ folders) p (h, hs) = elim (Bool-cases (f.id == row.id)) [
  | inl e ↦ rw e (p, All-replace_folder P row folders p hs)
  | inr e ↦ rw e (h, All-replace_folder P row folders p hs)
]

-- Another row for the same folder, of the same server.
replace_folder-IsConsistent :
    (t : Tables) (row : Folder)
    → IsConsistent t
    → Belongs t.servers row
    → IsConsistent (record t { folders = replace_folder row t.folders })
replace_folder-IsConsistent t row c b = record {
  servers = c.servers;
  unique_names = c.unique_names;
  folders = subst Distinct (sym (folder_ids-replace_folder row t.folders)) c.folders;
  filetypes = c.filetypes;
  belong = All-replace_folder (Belongs t.servers) row t.folders b c.belong;
  attached =
      subst (λ ids. All (λ (x : FileType). contains ids x.folder_id ≡ true) t.filetypes)
        (sym (folder_ids-replace_folder row t.folders)) c.attached;
}

contains-last :
    (folders : List Folder) (row : Folder)
    → contains (folder_ids (folders ++ (row ∷ []))) row.id ≡ true
contains-last [] row = ground arith
contains-last (f ∷ folders) row = ground (arith, contains-last folders row)

pub contains-last_server :
    (servers : List Server) (row : Server)
    → contains (server_ids (servers ++ (row ∷ []))) row.id ≡ true
contains-last_server [] row = ground arith
contains-last_server (s ∷ servers) row = ground (arith, contains-last_server servers row)

abbrev value_or : {A : Type 0} → A → Result A → A
value_or a (ok b) = b
value_or a (err e) = a

pub ok-injective : {A : Type 0} (a b : A) → ok a ≡ ok b → a ≡ b
ok-injective a b e = ap (value_or a) e

-- What holds of every success of the rest holds of the whole.
pub through :
    {A B : Type 0} (P : B → Type 0) (r : Result A) (f : A → Result B) (b : B)
    → ((a : A) → r ≡ ok a → f a ≡ ok b → P b)
    → (r >>= f) ≡ ok b
    → P b
through P (ok a) f b h e = h a refl e
through P (err x) f b h e = absurd (ground arith)

removed_found-IsConsistent :
    (t : Tables) (o : Option Folder)
    → IsConsistent t
    → IsConsistent (elim o [ none ↦ t | some row ↦ remove_folders (row.id ∷ []) t ])
removed_found-IsConsistent t none c = c
removed_found-IsConsistent t (some row) c = remove_folders-IsConsistent (row.id ∷ []) t c

pub delete_folder-IsConsistent :
    (id : ℕ) (t : Tables) → IsConsistent t → IsConsistent (delete_folder id t)
unfolding delete_folder
delete_folder-IsConsistent id t = removed_found-IsConsistent t (find_folder id t.folders)
