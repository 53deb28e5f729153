-- ===== src/Tests/Paths.antt =====
-- Runs of the path functions and of the router.
use syno_plex_change_monitor.Pipeline.Filters.Laws.{extension_matches_lem}
use syno_plex_change_monitor.Base.{
  ◌≡◌, refl, nat_eq, list_eq, true, false, Option, none, some, List, [], ◌∷◌, ◌++◌, ◌↔◌, map,
}
use syno_plex_change_monitor.Base.Text.{Text, codes, slash, split, ends_with, starts_with}
use syno_plex_change_monitor.Models.{created, moved_to, targeted, library}
use syno_plex_change_monitor.Normalize.{normalize_path}
use syno_plex_change_monitor.Config.{FolderRoute, RuntimeConfig, ignored_dir_names}
use syno_plex_change_monitor.Pipeline.Events.{FsEvent, ScanRequest}
use syno_plex_change_monitor.Pipeline.Filters.{is_ignored, extension_matches}
use syno_plex_change_monitor.Pipeline.Router.{compute_scan_path, is_path_prefix, route}
use syno_plex_change_monitor.Pipeline.Router.Prefix.{is_path_prefix_segments}
use syno_plex_change_monitor.Pipeline.Router.ScanPath.{
  compute_scan_path_lem, compute_scan_path_covers,
}
use syno_plex_change_monitor.Pipeline.Router.Fanout.{Answered, route_lem}

normpath_run :
    (normalize_path (codes " /data//media/./tv/../film/ ") ≡ codes "/data/media/film")
    × (normalize_path (codes "//data/../../x/") ≡ codes "//x")
    × (normalize_path (codes "///data") ≡ codes "/data")
    × (normalize_path (codes "a/../../b") ≡ codes "../b")
    × (normalize_path (codes "") ≡ codes ".")
    × (normalize_path (codes "/a/ /.") ≡ codes "/a/ ")
unfolding normalize_path
normpath_run = (refl, refl, refl, refl, refl, refl)

-- A case mapping that serves the runs, whose names are in lower case.
abbrev same_case : Text → Text
same_case t = t

abbrev tv : Text
tv = codes "/data/tv"

extension_run :
    (extension_matches same_case (codes "/data/a.b/x.mkv") (codes "mkv" ∷ []) ≡ true)
    × (extension_matches same_case (codes "/data/a.mkv/x") (codes "mkv" ∷ []) ≡ false)
    × (extension_matches same_case (codes "/data/.mkv") (codes "mkv" ∷ []) ≡ false)
    × (is_ignored (codes "/data/foo@eaDir/x") ignored_dir_names ≡ false)
    × (is_ignored (codes "/data/@eaDir/x") ignored_dir_names ≡ true)
unfolding extension_matches is_ignored
extension_run = (refl, refl, refl, refl, refl)

is_path_prefix_segments_example :
    (is_path_prefix tv (codes "/data/tvseries") ≡ true)
    ↔ ((rest : List Text) × (split slash (codes "/data/tvseries") ≡ split slash tv ++ rest))
unfolding ends_with nat_eq
is_path_prefix_segments_example = is_path_prefix_segments tv (codes "/data/tvseries") refl

prefix_run :
    (is_path_prefix tv (codes "/data/tvseries") ≡ false)
    × (is_path_prefix tv (codes "/data/tv/show") ≡ true)
    × (is_path_prefix (codes "/") (codes "/data") ≡ true)
unfolding is_path_prefix
prefix_run = (refl, refl, refl)

compute_scan_path_lem_example :
    (compute_scan_path tv (tv ++ slash ∷ (codes "show" ++ slash ∷ codes "s1/e1.mkv"))
      ≡ (tv ++ slash ∷ codes "show", some (codes "show")))
    × (compute_scan_path tv (tv ++ slash ∷ codes "e1.mkv") ≡ (tv, none))
unfolding ends_with nat_eq
compute_scan_path_lem_example =
    compute_scan_path_lem tv refl (codes "show") (codes "s1/e1.mkv") (codes "e1.mkv") (λ e. cc) refl
      refl

compute_scan_path_covers_example :
    (is_path_prefix tv (compute_scan_path tv (tv ++ slash ∷ codes "show/e1.mkv")).0 ≡ true)
    × (is_path_prefix
          (compute_scan_path tv (tv ++ slash ∷ codes "show/e1.mkv")).0
          (tv ++ slash ∷ codes "show/e1.mkv")
        ≡ true)
unfolding ends_with starts_with nat_eq
compute_scan_path_covers_example = compute_scan_path_covers tv refl (codes "show/e1.mkv") refl

abbrev tv_route : FolderRoute
tv_route = record {
  server_id = 1;
  server_name = codes "plex";
  path = tv;
  extensions = codes "mkv" ∷ [];
  library_id = some (codes "2");
  scan_mode = targeted;
  event_types = created ∷ moved_to ∷ [];
}

abbrev config : RuntimeConfig
config = record {
  watch_paths = tv ∷ [];
  routes =
      tv_route
      ∷ record tv_route { scan_mode = library; extensions = [] }
      ∷ record tv_route { event_types = [] }
      ∷ [];
  servers = [];
  ignore_dirs = ignored_dir_names;
}

abbrev episode : FsEvent
episode = record { path = codes "/data/tv/show/e1.mkv"; event_type = created; is_dir = false }

route_lem_example :
    (is_ignored episode.path ignored_dir_names ≡ true → route same_case episode config ≡ [])
    × (is_ignored episode.path ignored_dir_names ≡ false
        → Answered same_case episode config.routes (route same_case episode config))
route_lem_example = route_lem same_case episode config

abbrev scanned : ScanRequest → Option Text × Text
scanned r = (r.scan_path, r.scan_key)

route_run :
    map scanned (route same_case episode config)
    ≡ (some (codes "/data/tv/show"), codes "/data/tv/show") ∷ (none, codes "lib:2") ∷ []
unfolding route
route_run = refl

extension_matches_lem_example :
    (extension_matches same_case
        (tv ++ slash ∷ (codes "a.b" ++ b'.' ∷ codes "mkv"))
        (codes "mkv" ∷ [])
      ≡ true)
    × (extension_matches same_case (tv ++ slash ∷ codes "mkv") (codes "mkv" ∷ []) ≡ false)
unfolding nat_eq list_eq
extension_matches_lem_example =
    extension_matches_lem same_case tv (codes "mkv" ∷ []) (codes "a.b") (codes "mkv") refl refl refl
