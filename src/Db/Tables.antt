-- ===== src/Db/Tables.antt =====
-- The four tables of mediascanmonitor/db/models.py with their constraints, as SQLite enforces
-- them when a session commits. A session that fails leaves the tables as they were.
pub mod Consistent
pub mod Updates
use syno_plex_change_monitor.Base.{
  ℕ, Bool, true, false, not, ◌&&◌, Option, none, some, List, [], ◌∷◌, map, if◌then◌else◌, ◌==◌,
  nat_eq, list_eq, contains,
}
use syno_plex_change_monitor.Base.Dict.{Dict}
use syno_plex_change_monitor.Base.Lists.{filter}
use syno_plex_change_monitor.Base.Text.{Text}
use syno_plex_change_monitor.Models.{Server, Folder, FileType}

pub record Tables : Type 0 where
  pub servers : List Server
  pub folders : List Folder
  pub filetypes : List FileType
  pub settings : Dict Text Text

abbrev pub empty : Tables
empty = record { servers = []; folders = []; filetypes = []; settings = [] }

pub data DbError : Type 0 where
  key_error integrity_error : DbError

pub data Result {ℓ} (A : Type ℓ) : Type ℓ where
  ok : A → Result A
  err : DbError → Result A

infixl 5 ◌>>=◌
abbrev pub ◌>>=◌ {ℓ κ} : {A : Type ℓ} {B : Type κ} → Result A → (A → Result B) → Result B
ok a >>= f = f a
err e >>= f = err e

-- `session.get(Server, id)`, and so for folders.
unfoldable pub find_server : ℕ → List Server → Option Server
find_server id [] = none
find_server id (s ∷ servers) = if s.id == id then some s else find_server id servers

unfoldable pub find_folder : ℕ → List Folder → Option Folder
find_folder id [] = none
find_folder id (f ∷ folders) = if f.id == id then some f else find_folder id folders

-- `unique=True` of `Server.name`: whether a row other than the given one has the name.
unfoldable pub name_taken : ℕ → Text → List Server → Bool
name_taken id name [] = false
name_taken id name (s ∷ servers) =
    if s.name == name && not (s.id == id) then true else name_taken id name servers

-- The row of the same id is replaced.
unfoldable pub replace_server : Server → List Server → List Server
replace_server row [] = []
replace_server row (s ∷ servers) = (if s.id == row.id then row else s) ∷ replace_server row servers

unfoldable pub replace_folder : Folder → List Folder → List Folder
replace_folder row [] = []
replace_folder row (f ∷ folders) = (if f.id == row.id then row else f) ∷ replace_folder row folders

abbrev pub server_ids : List Server → List ℕ
server_ids = map (λ s. s.id)

abbrev pub folder_ids : List Folder → List ℕ
folder_ids = map (λ f. f.id)

abbrev pub filetype_ids : List FileType → List ℕ
filetype_ids = map (λ t. t.id)

abbrev pub folders_of : ℕ → List Folder → List Folder
folders_of server_id = filter (λ f. f.server_id == server_id)

abbrev pub filetypes_of : ℕ → List FileType → List FileType
filetypes_of folder_id = filter (λ t. t.folder_id == folder_id)

-- `ondelete="CASCADE"` and the delete-orphan cascade of the relationships.
unfoldable pub remove_folders : List ℕ → Tables → Tables
unfolding nat_eq
remove_folders gone t = record t {
  folders = filter (λ f. not (contains gone f.id)) t.folders;
  filetypes = filter (λ x. not (contains gone x.folder_id)) t.filetypes;
}

unfoldable pub remove_server : ℕ → Tables → Tables
unfolding remove_folders
remove_server id t =
    let rest = remove_folders (folder_ids (folders_of id t.folders)) t in
    record rest { servers = filter (λ s. not (s.id == id)) rest.servers }
