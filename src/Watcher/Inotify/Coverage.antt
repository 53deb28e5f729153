-- ===== src/Watcher/Inotify/Coverage.antt =====
-- What is watched once a root has been added.
use syno_plex_change_monitor.Base.{
  ◌≡◌, refl, ◌∙◌, ap, Bool, true, false, not, ◌&&◌, ◌||◌, Option, none, some, List, [], ◌∷◌, arith,
  nat_eq, list_eq, contains, Bool-cases, inl, inr, if◌then◌else◌,
}
use mathlib.Core.Path.{subst}
use syno_plex_change_monitor.Base.Lists.{All, All-map, contains-append, contains-filter}
use syno_plex_change_monitor.Base.Text.{Text}
use syno_plex_change_monitor.Normalize.{normalize_path}
use syno_plex_change_monitor.Pipeline.Events.{FsEvent}
use syno_plex_change_monitor.Watcher.FileTree.{Dir, Visit, walk}
use syno_plex_change_monitor.Watcher.Inotify.{
  Backend, is_ignored, add_watch, visit, visit_all, visits_of, is_directory, walk_add_watches,
  add_all, set_roots, remove_all, remove_watch_tree, difference, normalized_set,
}

-- A directory of a walk is watched, or its path has an ignored name in it.
abbrev pub Covered : Backend → Visit → Type 0
Covered s v = (is_ignored (normalize_path v.0) s || contains s.watches (normalize_path v.0)) ≡ true

-- Watches are only added.
record Grows (s u : Backend) : Type 0 where
  ignore_dirs : u.ignore_dirs ≡ s.ignore_dirs
  watches : (p : Text) → contains s.watches p ≡ true → contains u.watches p ≡ true

Grows-refl : (s : Backend) → Grows s s
Grows-refl s = record { ignore_dirs = refl; watches = λ p h. h }

Grows-trans : (s u v : Backend) → Grows s u → Grows u v → Grows s v
Grows-trans s u v g h = record {
  ignore_dirs = h.ignore_dirs ∙ g.ignore_dirs;
  watches = λ p k. h.watches p (g.watches p k);
}

Covered-Grows : (s u : Backend) (v : Visit) → Grows s u → Covered s v → Covered u v
unfolding is_ignored
Covered-Grows s u v g h = elim (Bool-cases (contains s.watches (normalize_path v.0))) [
  | inl e ↦ rw (g.watches (normalize_path v.0) e) (ground arith)
  | inr e ↦ rw g.ignore_dirs (ground (arith, rw e at h))
]

module _ (directory : Text → Option Dir) (can_watch : Text → Bool)
    (all_watchable : (p : Text) → can_watch p ≡ true) where
  add_watch-Grows : (path : Text) (s : Backend) → Grows s (add_watch directory can_watch path s)
  unfolding add_watch
  add_watch-Grows path s = elim (Bool-cases (contains s.watches path)) [
    | inl e ↦ rw e (Grows-refl s)
    | inr e ↦
        rw (e, all_watchable path)
          (record {
            ignore_dirs = refl;
            watches = λ p h. contains-append s.watches (path ∷ []) p ∙ rw h refl;
          })
  ]

  add_watch-watches :
      (path : Text) (s : Backend)
      → contains (add_watch directory can_watch path s).watches path ≡ true
  unfolding add_watch
  add_watch-watches path s = elim (Bool-cases (contains s.watches path)) [
    | inl e ↦ rw e e
    | inr e ↦ rw (e, all_watchable path) (contains-append s.watches (path ∷ []) path ∙ ground arith)
  ]

  visit-Grows :
      (root : Text) (v : Visit) (s : Backend) (out : List FsEvent)
      → Grows s (visit directory can_watch root v (s, out)).0
  unfolding visit
  visit-Grows root (dirpath, files) s out =
      elim (Bool-cases (is_ignored (normalize_path dirpath) s)) [
        | inl e ↦ rw e (Grows-refl s)
        | inr e ↦ rw e (add_watch-Grows (normalize_path dirpath) s)
      ]

  visit-Covered :
      (root : Text) (v : Visit) (s : Backend) (out : List FsEvent)
      → Covered (visit directory can_watch root v (s, out)).0 v
  unfolding visit
  visit-Covered root (dirpath, files) s out =
      elim (Bool-cases (is_ignored (normalize_path dirpath) s)) [
        | inl e ↦ rw e (rw e refl)
        | inr e ↦ rw e (rw (add_watch-watches (normalize_path dirpath) s) (ground arith))
      ]

  visit_all-Grows :
      (root : Text) (visits : List Visit) (acc : Backend × List FsEvent)
      → Grows acc.0 (visit_all directory can_watch root visits acc).0
  unfolding visit_all
  visit_all-Grows root [] acc = Grows-refl acc.0
  visit_all-Grows root (v ∷ visits) acc =
      Grows-trans acc.0 _ _ (visit-Grows root v acc.0 acc.1)
        (visit_all-Grows root visits (visit directory can_watch root v acc))

  visit_all-Covered :
      (root : Text) (visits : List Visit) (acc : Backend × List FsEvent)
      → All (Covered (visit_all directory can_watch root visits acc).0) visits
  unfolding visit_all
  visit_all-Covered root [] acc = tt
  visit_all-Covered root (v ∷ visits) acc =
      let next = visit directory can_watch root v acc in
      (
        Covered-Grows next.0 _ v (visit_all-Grows root visits next)
            (visit-Covered root v acc.0 acc.1),
        visit_all-Covered root visits next,
      )

  walk-Covered :
      (root : Text) (d : Dir) (s : Backend)
      → directory root ≡ some d
      → All (Covered (walk_add_watches directory can_watch root s).0) (walk s.ignore_dirs d root)
  unfolding walk_add_watches
  walk-Covered root d s e = rw e (visit_all-Covered root (walk s.ignore_dirs d root) (s, []))

  walk-Grows : (root : Text) (s : Backend) → Grows s (walk_add_watches directory can_watch root s).0
  unfolding walk_add_watches
  walk-Grows root s =
      visit_all-Grows root (visits_of directory can_watch s root (directory root)) (s, [])

  abbrev next_of : Text → Backend → Backend
  next_of r s =
      if is_directory directory can_watch r && not (is_ignored r s)
      then (walk_add_watches directory can_watch r s).0
      else s

  next_of-Grows : (r : Text) (s : Backend) → Grows s (next_of r s)
  next_of-Grows r s =
      elim (Bool-cases (is_directory directory can_watch r && not (is_ignored r s))) [
        | inl e ↦ rw e (walk-Grows r s)
        | inr e ↦ rw e (Grows-refl s)
      ]

  add_all-Grows : (added : List Text) (s : Backend) → Grows s (add_all directory can_watch added s)
  unfolding add_all
  add_all-Grows [] s = Grows-refl s
  add_all-Grows (r ∷ added) s =
      Grows-trans s (next_of r s) _ (next_of-Grows r s) (add_all-Grows added (next_of r s))

  next_of-Covered :
      (root : Text) (d : Dir) (s : Backend)
      → directory root ≡ some d
      → is_ignored root s ≡ false
      → All (Covered (next_of root s)) (walk s.ignore_dirs d root)
  next_of-Covered root d s e n =
      let taken : (is_directory directory can_watch root && not (is_ignored root s)) ≡ true =
        ap
          (λ (o : Option Dir). (elim o [ none ↦ false | some _ ↦ true ]) && not (is_ignored root s))
          e
        ∙ rw n refl in
      rw taken (walk-Covered root d s e)

  add_all-Covered :
      (added : List Text) (ignore_dirs : List Text) (root : Text) (d : Dir) (s : Backend)
      → contains added root ≡ true
      → directory root ≡ some d
      → s.ignore_dirs ≡ ignore_dirs
      → is_ignored root s ≡ false
      → All (Covered (add_all directory can_watch added s)) (walk ignore_dirs d root)
  unfolding add_all
  add_all-Covered [] ignore_dirs root d s k e i n = absurd (ground arith)
  add_all-Covered (r ∷ added) ignore_dirs root d s k e i n =
      let step = next_of-Grows r s in
      elim (list_eq.dec root r) [
        | yes q ↦
            All-map (Covered (next_of r s))
              (Covered (add_all directory can_watch added (next_of r s)))
              (λ v h. Covered-Grows (next_of r s) _ v (add_all-Grows added (next_of r s)) h)
              (walk ignore_dirs d root)
              (subst (λ r. All (Covered (next_of r s)) (walk ignore_dirs d root)) q
                (subst (λ dirs. All (Covered (next_of root s)) (walk dirs d root)) i
                  (next_of-Covered root d s e n)))
        | no q ↦
            add_all-Covered added ignore_dirs root d (next_of r s) (ground arith) e
              (step.ignore_dirs ∙ i)
              (unfold is_ignored in rw step.ignore_dirs (unfold is_ignored in n))
      ]

remove_all-ignore_dirs :
    (gone : List Text) (s : Backend) → (remove_all gone s).ignore_dirs ≡ s.ignore_dirs
unfolding remove_all remove_watch_tree
remove_all-ignore_dirs [] s = refl
remove_all-ignore_dirs (r ∷ gone) s = remove_all-ignore_dirs gone (remove_watch_tree r s)

-- Where the kernel grants every watch: after the roots are set, a root that is new, is a
-- directory, and has no ignored name in its path is watched with the whole tree below it, except
-- the directories with an ignored name in their paths. The roots are taken as they are normalized.
pub set_roots-Covered :
    (directory : Text → Option Dir) (can_watch : Text → Bool) (roots : List Text) (s : Backend)
    (root : Text) (d : Dir)
    → ((p : Text) → can_watch p ≡ true)
    → contains (normalized_set [] roots) root ≡ true
    → contains s.roots root ≡ false
    → directory root ≡ some d
    → is_ignored root s ≡ false
    → All (Covered (set_roots directory can_watch roots s)) (walk s.ignore_dirs d root)
unfolding set_roots is_ignored
set_roots-Covered directory can_watch roots s root d w k n e i =
    let cleared = remove_all (difference s.roots (normalized_set [] roots)) s in
    let same = remove_all-ignore_dirs (difference s.roots (normalized_set [] roots)) s in
    add_all-Covered directory can_watch w (difference (normalized_set [] roots) s.roots)
      s.ignore_dirs root d cleared
      (contains-filter (λ p. not (contains s.roots p)) (normalized_set [] roots) root
        ∙ rw (k, n) refl)
      e same (rw same i)
