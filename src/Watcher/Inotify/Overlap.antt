-- ===== src/Watcher/Inotify/Overlap.antt =====
-- `set_roots` where a root that goes holds a root that stays.
use syno_plex_change_monitor.Base.{
  ◌≡◌, Bool, true, false, not, Option, List, [], ◌∷◌, nat_eq, list_eq, contains, arith,
}
use syno_plex_change_monitor.Base.Lists.{contains-filter}
use syno_plex_change_monitor.Base.Text.{Text}
use syno_plex_change_monitor.Watcher.FileTree.{Dir}
use syno_plex_change_monitor.Watcher.Inotify.{
  Backend, under, remove_watch_tree, remove_all, difference, normalized_set, set_roots,
}

remove_watch_tree-absent :
    (g path : Text) (s : Backend)
    → contains s.watches path ≡ false
    → contains (remove_watch_tree g s).watches path ≡ false
unfolding remove_watch_tree
remove_watch_tree-absent g path s h =
    ground (arith, contains-filter (λ q. not (under g q)) s.watches path)

remove_watch_tree-under :
    (g path : Text) (s : Backend)
    → under g path ≡ true
    → contains (remove_watch_tree g s).watches path ≡ false
unfolding remove_watch_tree
remove_watch_tree-under g path s h =
    ground (arith, contains-filter (λ q. not (under g q)) s.watches path)

remove_all-absent :
    (gone : List Text) (path : Text) (s : Backend)
    → contains s.watches path ≡ false
    → contains (remove_all gone s).watches path ≡ false
unfolding remove_all
remove_all-absent [] path s h = h
remove_all-absent (g ∷ gone) path s h =
    remove_all-absent gone path (remove_watch_tree g s) (remove_watch_tree-absent g path s h)

remove_all-under :
    (gone : List Text) (g path : Text) (s : Backend)
    → contains gone g ≡ true
    → under g path ≡ true
    → contains (remove_all gone s).watches path ≡ false
unfolding remove_all
remove_all-under [] g path s h k = absurd (ground arith)
remove_all-under (x ∷ gone) g path s h k = elim (list_eq.dec g x) [
  | yes e ↦
      remove_all-absent gone path (remove_watch_tree x s)
        (remove_watch_tree-under x path s (rw e at k))
  | no n ↦ remove_all-under gone g path (remove_watch_tree x s) (ground arith) k
]

module _ (directory : Text → Option Dir) (can_watch : Text → Bool) where
  -- If no new root comes, then after `set_roots` no path under a root that went has a watch: a
  -- root that stays, but lies under one that went, is no longer watched either.
  pub set_roots-forgets :
      (roots : List Text) (s : Backend) (g path : Text)
      → difference (normalized_set [] roots) s.roots ≡ []
      → contains (difference s.roots (normalized_set [] roots)) g ≡ true
      → under g path ≡ true
      → contains (set_roots directory can_watch roots s).watches path ≡ false
  unfolding set_roots
  set_roots-forgets roots s g path none_added gone k =
      rw none_added (remove_all-under _ g path s gone k)
