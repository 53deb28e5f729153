-- ===== src/Pipeline/Filters.antt =====
-- mediascanmonitor/pipeline/filters.py. A frozenset is the list of its members.
pub mod Laws
use syno_plex_change_monitor.Base.{
  ℕ, Bool, true, false, not, ◌||◌, List, [], ◌∷◌, ◌==◌, nat_eq, list_eq, if◌then◌else◌, contains,
}
use syno_plex_change_monitor.Base.Lists.{any}
use syno_plex_change_monitor.Base.Text.{Text, slash, split, after_last, rpartition}

unfoldable pub is_ignored : Text → List Text → Bool
unfolding split list_eq nat_eq
is_ignored path ignore_dirs =
    if ignore_dirs == []
    then false
    else any (λ segment. contains ignore_dirs segment) (split slash path)

-- The test on the three parts of `name.rpartition(".")`.
unfoldable pub extension_in : (Text → Text) → List Text → Text × Bool × Text → Bool
unfolding list_eq nat_eq
extension_in lower extensions (base, dot, ext) =
    if not dot || base == [] then false else contains extensions (lower ext)

unfoldable pub extension_matches : (Text → Text) → Text → List Text → Bool
unfolding extension_in after_last rpartition list_eq nat_eq
extension_matches lower path extensions =
    if extensions == []
    then true
    else extension_in lower extensions (rpartition b'.' (after_last slash path))
