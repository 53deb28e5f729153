-- ===== src/Watcher/Inotify.antt =====
-- mediascanmonitor/watcher/inotify_backend.py. The dict of watches is the list of its paths. A
-- set is iterated in the order of the list that stands for it. Parameters: the directory at a
-- path, and whether the kernel accepts a watch on it (an `OSError` where it does not).
pub mod Coverage
pub mod Overlap
use Prim.Native.Nat.{bit_and}
use syno_plex_change_monitor.Base.{
  ℕ, Bool, true, false, not, ◌&&◌, ◌||◌, Option, none, some, List, [], ◌∷◌, ◌++◌, map,
  if◌then◌else◌, ◌==◌, nat_eq, list_eq, contains,
}
use syno_plex_change_monitor.Base.Lists.{filter, any}
use syno_plex_change_monitor.Base.Text.{Text, slash, split, starts_with}
use syno_plex_change_monitor.Models.{FsEventType, created, moved_to, deleted, moved_from}
use syno_plex_change_monitor.Normalize.{normalize_path}
use syno_plex_change_monitor.Pipeline.Events.{FsEvent}
use syno_plex_change_monitor.Watcher.FileTree.{Dir, Visit, walk, path_join}

abbrev in_moved_from : ℕ
in_moved_from = 0x40

abbrev in_moved_to : ℕ
in_moved_to = 0x80

abbrev in_create : ℕ
in_create = 0x100

abbrev in_delete : ℕ
in_delete = 0x200

abbrev in_q_overflow : ℕ
in_q_overflow = 0x4000

abbrev in_isdir : ℕ
in_isdir = 0x40000000

-- `mask & bit` as a condition.
abbrev pub has_bit : ℕ → ℕ → Bool
has_bit mask bit = not (bit_and mask bit == 0)

unfoldable pub mask_to_event_type : ℕ → Option FsEventType
unfolding nat_eq
mask_to_event_type mask =
    if has_bit mask in_create
    then some created
    else if has_bit mask in_moved_to
    then some moved_to
    else if has_bit mask in_delete
    then some deleted
    else if has_bit mask in_moved_from
    then some moved_from
    else none

unfoldable pub mask_is_dir : ℕ → Bool
unfolding nat_eq
mask_is_dir mask = has_bit mask in_isdir

pub record Backend : Type 0 where
  pub ignore_dirs : List Text
  pub watches : List Text
  pub roots : List Text

-- `InotifyBackend(ignore_dirs)`
unfoldable pub create : List Text → Backend
create ignore_dirs = record { ignore_dirs = ignore_dirs; watches = []; roots = [] }

unfoldable pub is_ignored : Text → Backend → Bool
unfolding split list_eq nat_eq
is_ignored path s = any (λ segment. contains s.ignore_dirs segment) (split slash path)

abbrev pub under : Text → Text → Bool
under root p = p == root || starts_with p (root ++ slash ∷ [])

unfoldable pub remove_watch_tree : Text → Backend → Backend
unfolding starts_with list_eq nat_eq
remove_watch_tree root s = record s { watches = filter (λ p. not (under root p)) s.watches }

abbrev file_event : Text → Text → FsEvent
file_event dirpath name = record {
  path = normalize_path (path_join dirpath name);
  event_type = created;
  is_dir = false;
}

-- `{normalize_path(root) for root in roots}`
unfoldable pub normalized_set : List Text → List Text → List Text
unfolding normalize_path list_eq nat_eq
normalized_set out [] = out
normalized_set out (root ∷ roots) =
    let norm = normalize_path root in
    normalized_set (if contains out norm then out else out ++ (norm ∷ [])) roots

unfoldable pub remove_all : List Text → Backend → Backend
unfolding remove_watch_tree
remove_all [] s = s
remove_all (root ∷ gone) s = remove_all gone (remove_watch_tree root s)

-- `a - b` of two sets.
abbrev pub difference : List Text → List Text → List Text
difference a b = filter (λ p. not (contains b p)) a

module _ (directory : Text → Option Dir) (can_watch : Text → Bool) where
  unfoldable pub add_watch : Text → Backend → Backend
  unfolding list_eq nat_eq
  add_watch path s =
      if contains s.watches path
      then s
      else if can_watch path
      then record s { watches = s.watches ++ (path ∷ []) }
      else s

  -- One round of the loop over `os.walk`, with the synthetic events so far.
  unfoldable pub visit : Text → Visit → Backend × List FsEvent → Backend × List FsEvent
  unfolding add_watch is_ignored normalize_path path_join
  visit root (dirpath, filenames) (s, synthetic) =
      let norm_dir = normalize_path dirpath in
      if is_ignored norm_dir s then (s, synthetic) else (
        add_watch norm_dir s,
        synthetic
            ++ ((if norm_dir == root
                  then []
                  else record { path = norm_dir; event_type = created; is_dir = true } ∷ [])
                ++ map (file_event dirpath) filenames),
      )

  unfoldable pub visit_all : Text → List Visit → Backend × List FsEvent → Backend × List FsEvent
  unfolding visit
  visit_all root [] acc = acc
  visit_all root (v ∷ visits) acc = visit_all root visits (visit root v acc)

  abbrev pub visits_of : Backend → Text → Option Dir → List Visit
  visits_of s root none = []
  visits_of s root (some d) = walk s.ignore_dirs d root

  -- The backend afterwards, and the synthetic events.
  unfoldable pub walk_add_watches : Text → Backend → Backend × List FsEvent
  unfolding visit_all walk
  walk_add_watches root s = visit_all root (visits_of s root (directory root)) (s, [])

  abbrev pub is_directory : Text → Bool
  is_directory path = elim (directory path) [ none ↦ false | some _ ↦ true ]

  unfoldable pub add_all : List Text → Backend → Backend
  unfolding walk_add_watches is_ignored
  add_all [] s = s
  add_all (root ∷ added) s =
      add_all added
        (if is_directory root && not (is_ignored root s) then (walk_add_watches root s).0 else s)

  unfoldable pub set_roots : List Text → Backend → Backend
  unfolding normalized_set remove_all add_all
  set_roots roots s =
      let new_roots = normalized_set [] roots in
      let s1 = remove_all (difference s.roots new_roots) s in
      let s2 = add_all (difference new_roots s.roots) s1 in record s2 { roots = new_roots }

  -- The resync after an overflow; `sorted` is Python's.
  unfoldable pub resync : List Text → Backend × List FsEvent → Backend × List FsEvent
  unfolding walk_add_watches
  resync [] acc = acc
  resync (root ∷ roots) (s, emitted) =
      let (s', synthetic) = walk_add_watches root s in resync roots (s', emitted ++ synthetic)

  abbrev emit : Text → FsEventType → Bool → FsEvent
  emit path event_type is_dir = record { path = path; event_type = event_type; is_dir = is_dir }

  abbrev with_walk : FsEvent → Backend × List FsEvent → Backend × List FsEvent
  with_walk event (s, synthetic) = (s, event ∷ synthetic)

  -- A directory that appeared, one that went, and anything else.
  abbrev handle_typed : Bool → FsEventType → Text → Backend → Backend × List FsEvent
  handle_typed true created path s = with_walk (emit path created true) (walk_add_watches path s)
  handle_typed true moved_to path s = with_walk (emit path moved_to true) (walk_add_watches path s)
  handle_typed true deleted path s = (remove_watch_tree path s, emit path deleted true ∷ [])
  handle_typed true moved_from path s = (remove_watch_tree path s, emit path moved_from true ∷ [])
  handle_typed false event_type path s = (s, emit path event_type false ∷ [])

  abbrev handle_masked : ℕ → Option FsEventType → Text → Backend → Backend × List FsEvent
  handle_masked mask none path s = (s, [])
  handle_masked mask (some event_type) path s = handle_typed (mask_is_dir mask) event_type path s

  abbrev handle_path : ℕ → Option Text → Backend → Backend × List FsEvent
  handle_path mask none s = (s, [])
  handle_path mask (some raw) s =
      let path = normalize_path raw in
      if is_ignored path s then (s, []) else handle_masked mask (mask_to_event_type mask) path s

  -- The body of the loop of `events` for one event that was read: the backend afterwards, and
  -- what is yielded.
  unfoldable pub handle_raw :
      (List Text → List Text) → ℕ → Option Text → Backend → Backend × List FsEvent
  unfolding resync remove_watch_tree is_ignored mask_to_event_type mask_is_dir
  handle_raw sorted mask path s =
      if has_bit mask in_q_overflow
      then resync (sorted s.roots) (s, [])
      else handle_path mask path s
