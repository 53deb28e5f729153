-- ===== src/Db/Tables/Consistent.antt =====
-- The keys of the tables: none is repeated, and none dangles.
use syno_plex_change_monitor.Base.{
  ℕ, ◌≡◌, refl, true, some, List, [], ◌∷◌, map, nat_eq, list_eq, contains, arith,
}
use syno_plex_change_monitor.Base.Distinct.{Distinct}
use syno_plex_change_monitor.Base.Lists.{All}
use syno_plex_change_monitor.Base.Text.{Text}
use syno_plex_change_monitor.Models.{Server, Folder, FileType}
use syno_plex_change_monitor.Db.Tables.{
  Tables, empty, find_server, find_folder, replace_server, replace_folder, server_ids, folder_ids,
  filetype_ids,
}

abbrev pub names : List Server → List Text
names = map (λ s. s.name)

abbrev pub Belongs : List Server → Folder → Type 0
Belongs servers f = contains (server_ids servers) f.server_id ≡ true

abbrev pub Attached : List Folder → FileType → Type 0
Attached folders x = contains (folder_ids folders) x.folder_id ≡ true

pub record IsConsistent (t : Tables) : Type 0 where
  pub servers : Distinct (server_ids t.servers)
  pub unique_names : Distinct (names t.servers)
  pub folders : Distinct (folder_ids t.folders)
  pub filetypes : Distinct (filetype_ids t.filetypes)
  pub belong : All (Belongs t.servers) t.folders
  pub attached : All (Attached t.folders) t.filetypes

pub empty-IsConsistent : IsConsistent empty
empty-IsConsistent = record {
  servers = tt;
  unique_names = tt;
  folders = tt;
  filetypes = tt;
  belong = tt;
  attached = tt;
}

pub find_server-some :
    (id : ℕ) (servers : List Server) (row : Server)
    → find_server id servers ≡ some row
    → (row.id ≡ id) × (contains (server_ids servers) id ≡ true)
unfolding find_server
find_server-some id [] row h = absurd (ground arith)
find_server-some id (s ∷ servers) row h = elim (nat_eq.dec s.id id) [
  | yes e ↦ ground arith
  | no n ↦ ground (arith, find_server-some id servers row (ground arith))
]

pub find_folder-some :
    (id : ℕ) (folders : List Folder) (row : Folder)
    → find_folder id folders ≡ some row
    → (row.id ≡ id) × (contains (folder_ids folders) id ≡ true)
unfolding find_folder
find_folder-some id [] row h = absurd (ground arith)
find_folder-some id (f ∷ folders) row h = elim (nat_eq.dec f.id id) [
  | yes e ↦ ground arith
  | no n ↦ ground (arith, find_folder-some id folders row (ground arith))
]

-- Replacing a row keeps the keys.
pub server_ids-replace_server :
    (row : Server) (servers : List Server)
    → server_ids (replace_server row servers) ≡ server_ids servers
unfolding replace_server
server_ids-replace_server row [] = refl
server_ids-replace_server row (s ∷ servers) = ground (arith, server_ids-replace_server row servers)

pub folder_ids-replace_folder :
    (row : Folder) (folders : List Folder)
    → folder_ids (replace_folder row folders) ≡ folder_ids folders
unfolding replace_folder
folder_ids-replace_folder row [] = refl
folder_ids-replace_folder row (f ∷ folders) = ground (arith, folder_ids-replace_folder row folders)
