-- ===== src/Web/Browse.antt =====
-- mediascanmonitor/web/fsbrowse.py, and the breadcrumbs of web/pages.py. Parameters: the working
-- directory of the process, the entries that `os.scandir` gives for a path, with what `is_dir`
-- says of each (`none` where it raises an `OSError`), and `str.lower`.
pub mod Listing
use syno_plex_change_monitor.Base.{
  ℕ, Bool, true, false, not, ◌&&◌, Option, none, some, List, [], ◌∷◌, ◌++◌, ◌==◌, nat_eq, list_eq,
  contains, leb, if◌then◌else◌,
}
use syno_plex_change_monitor.Base.Lists.{length, filter}
use syno_plex_change_monitor.Base.Sort.{sorted, text_leb}
use syno_plex_change_monitor.Base.Text.{Text, codes, slash, split, join, rpartition, rstrip}
use syno_plex_change_monitor.Normalize.{normpath, isabs}
use syno_plex_change_monitor.Watcher.FileTree.{path_join}

pub record FsEntry : Type 0 where
  pub name : Text
  pub path : Text

pub record DirListing : Type 0 where
  pub path : Text
  pub parent : Option Text
  pub entries : List FsEntry
  pub truncated : Bool

abbrev pub hidden_dir_names : List Text
hidden_dir_names = codes "@eaDir" ∷ codes "#snapshot" ∷ []

abbrev pub max_entries : ℕ
max_entries = 1000

-- `path or "/"`
abbrev or_root : Text → Text
or_root [] = slash ∷ []
or_root (c ∷ path) = c ∷ path

-- `os.path.normpath(os.path.abspath(path or "/"))`
unfoldable pub absolute : Text → Text → Text
unfolding normpath path_join isabs nat_eq
absolute cwd path =
    let path = or_root path in normpath (normpath (if isabs path then path else path_join cwd path))

abbrev pub entry_of : Text → Text → FsEntry
entry_of target name = record { name = name; path = path_join target name }

abbrev pub is_listed : Text → Option Bool → Bool
is_listed name none = false
is_listed name (some is_dir) = is_dir && not (contains hidden_dir_names name)

-- The loop over the entries, with those listed so far: it stops at the first one too many.
unfoldable pub list_entries : Text → List (Text × Option Bool) → List FsEntry → List FsEntry × Bool
unfolding path_join list_eq nat_eq
list_entries target [] listed = (listed, false)
list_entries target ((name, is_dir) ∷ scanned) listed =
    let rest =
      list_entries target scanned
        (if is_listed name is_dir then listed ++ (entry_of target name ∷ []) else listed) in
    if is_listed name is_dir && leb max_entries (length listed) then (listed, true) else rest

abbrev all_slashes : Text → Bool
all_slashes head = rstrip (λ c. c == slash) head == []

-- `os.path.dirname`
unfoldable pub dirname : Text → Text
unfolding rpartition rstrip list_eq nat_eq
dirname path =
    let (before, found, after) = rpartition slash path in
    let head = if found then before ++ slash ∷ [] else [] in
    if all_slashes head then head else rstrip (λ c. c == slash) head

-- The loop of `_path_crumbs`: the names and the cumulative paths.
unfoldable pub crumb_loop : Text → List Text → List FsEntry
crumb_loop acc [] = []
crumb_loop acc (part ∷ parts) =
    let next = acc ++ slash ∷ part in record { name = part; path = next } ∷ crumb_loop next parts

unfoldable pub path_crumbs : Text → List FsEntry
unfolding crumb_loop split list_eq nat_eq
path_crumbs path =
    record { name = slash ∷ []; path = slash ∷ [] }
    ∷ crumb_loop [] (filter (λ p. not (p == [])) (split slash path))

module _ (cwd : Text) (scandir : Text → Option (List (Text × Option Bool)))
    (lower : Text → Text) where
  abbrev pub listing_of : Text → List FsEntry × Bool → DirListing
  listing_of target (entries, truncated) = record {
    path = target;
    parent = if dirname target == target then none else some (dirname target);
    entries = sorted (λ a b. text_leb (lower a.name) (lower b.name)) entries;
    truncated = truncated;
  }

  abbrev pub listed_as : Text → Option (List (Text × Option Bool)) → Option DirListing
  listed_as target none = none
  listed_as target (some scanned) = some (listing_of target (list_entries target scanned []))

  -- `list_directory`; `none` stands for the `OSError` of `os.scandir`.
  unfoldable pub list_directory : Text → Option DirListing
  unfolding absolute list_entries dirname sorted list_eq nat_eq
  list_directory path = listed_as (absolute cwd path) (scandir (absolute cwd path))

  abbrev shown_path : Text → Option DirListing → Text
  shown_path requested none = requested
  shown_path requested (some listing) = listing.path

  -- `GET /ui/fs`: the listing, and the crumbs of the path that is shown.
  unfoldable pub browse : Text → Option DirListing × List FsEntry
  unfolding list_directory path_crumbs absolute
  browse path =
      let listing = list_directory path in
      (listing, path_crumbs (shown_path (absolute cwd path) listing))
