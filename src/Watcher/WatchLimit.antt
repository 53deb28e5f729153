-- ===== src/Watcher/WatchLimit.antt =====
-- mediascanmonitor/watcher/watch_limit.py. Parameters: the directory at a path, if there is one;
-- `math.ceil(n * headroom)`, whose product is a float; the kernel's limit.
use syno_plex_change_monitor.Base.{
  ◌<◌, ℕ, ◌+◌, ◌≤◌, ◌≡◌, Bool, true, false, Option, none, some, List, [], ◌∷◌, leb, arith,
}
use syno_plex_change_monitor.Base.Text.{Text}
use syno_plex_change_monitor.Watcher.FileTree.{Dir, count_tree}

pub record WatchLimitStatus : Type 0 where
  pub current : ℕ
  pub dirs : ℕ
  pub needed : ℕ
  pub recommended : ℕ
  pub ok : Bool

module _ (directory : Text → Option Dir) (ignore_dirs : List Text) where
  abbrev count_root : Option Dir → ℕ
  count_root none = 0
  count_root (some d) = count_tree ignore_dirs d

  unfoldable pub count_dirs : List Text → ℕ
  unfolding count_tree
  count_dirs [] = 0
  count_dirs (root ∷ roots) = count_root (directory root) + count_dirs roots

  module _ (ceil_headroom : ℕ → ℕ) (max_user_watches : ℕ) where
    unfoldable pub check_watch_limit : List Text → WatchLimitStatus
    unfolding count_dirs
    check_watch_limit roots =
        let dirs = count_dirs roots in
        let needed = ceil_headroom dirs in
        record {
          current = max_user_watches;
          dirs = dirs;
          needed = needed;
          recommended = ceil_headroom needed;
          ok = leb needed max_user_watches;
        }

    -- Where the headroom takes nothing away: if the gate is passed, there is a watch for every
    -- directory of the roots; if it is not, the recommended limit would pass it.
    pub check_watch_limit_lem :
        ((n : ℕ) → n ≤ ceil_headroom n)
        → (roots : List Text)
        → let status = check_watch_limit roots in
          (status.ok ≡ true → count_dirs roots ≤ max_user_watches)
          × (status.ok ≡ false → max_user_watches < status.recommended)
          × (status.needed ≤ status.recommended)
    unfolding check_watch_limit
    check_watch_limit_lem grows roots =
        let dirs = count_dirs roots in
        (
          λ h. ground (arith, grows dirs),
          λ h. ground (arith, grows (ceil_headroom dirs)),
          grows (ceil_headroom dirs),
        )
