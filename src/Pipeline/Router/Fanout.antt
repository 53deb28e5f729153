-- ===== src/Pipeline/Router/Fanout.antt =====
-- One request for each route that wants the event, in the order of the routes.
use syno_plex_change_monitor.Models.{ScanMode, targeted, library}
use syno_plex_change_monitor.Base.{
  none, some, contains, false, arith, true, ◌⊎◌, ◌≡◌, refl, List, [], ◌∷◌, ◌++◌, map, Bool-cases,
  inl, inr, if◌then◌else◌,
}
use mathlib.Core.List.{append_assoc, append-nil}
use syno_plex_change_monitor.Base.Lists.{filter}
use syno_plex_change_monitor.Base.Text.{codes, Text}
use syno_plex_change_monitor.Models.{ScanMode, event_type_eq}
use syno_plex_change_monitor.Config.{FolderRoute, RuntimeConfig}
use syno_plex_change_monitor.Pipeline.Events.{FsEvent, ScanRequest}
use syno_plex_change_monitor.Pipeline.Filters.{extension_matches, is_ignored}
use syno_plex_change_monitor.Pipeline.Router.{
  format_option, request_of_mode, compute_scan_path, is_path_prefix, route_matches, scan_request,
  route_loop, route,
}

module _ (lower : Text → Text) (event : FsEvent) where
  route_loop_lem :
      (requests : List ScanRequest) (routes : List FolderRoute)
      → route_loop lower event requests routes
        ≡ requests ++ map (scan_request event) (filter (route_matches lower event) routes)
  unfolding route_loop
  route_loop_lem requests [] = rw append-nil
  route_loop_lem requests (r ∷ routes) = elim (Bool-cases (route_matches lower event r)) [
    | inl e ↦
        rw (e, route_loop_lem (requests ++ (scan_request event r ∷ [])) routes, append_assoc) refl
    | inr e ↦ rw (e, route_loop_lem requests routes) refl
  ]

  pub route-filter :
      (config : RuntimeConfig)
      → route lower event config ≡ (
          if is_ignored event.path config.ignore_dirs
          then []
          else map (scan_request event) (filter (route_matches lower event) config.routes))
  unfolding route
  route-filter config = rw (route_loop_lem [] config.routes)

  -- The three conditions under which a route wants the event.
  abbrev pub Wants : FolderRoute → Type 0
  Wants r =
      (is_path_prefix r.path event.path ≡ true)
      × (extension_matches lower event.path r.extensions ≡ true)
      × (contains r.event_types event.event_type ≡ true)

  -- What is scanned: a folder of its own and its path as the key, or the library and its id.
  abbrev pub Targets : ScanMode → FolderRoute → ScanRequest → Type 0
  Targets targeted r req =
      let (path, top) = compute_scan_path r.path event.path in
      (req.scan_path ≡ some path) × (req.top_folder ≡ top) × (req.scan_key ≡ path)
  Targets library r req =
      (req.scan_path ≡ none)
      × (req.top_folder ≡ none)
      × (req.scan_key ≡ codes "lib:" ++ format_option r.library_id)

  abbrev pub IsRequestOf : FolderRoute → ScanRequest → Type 0
  IsRequestOf r req =
      (req.server_id ≡ r.server_id)
      × (req.server_name ≡ r.server_name)
      × (req.scan_mode ≡ r.scan_mode)
      × (req.library_id ≡ r.library_id)
      × (req.event_type ≡ event.event_type)
      × (req.file_path ≡ event.path)
      × Targets r.scan_mode r req

  -- The requests answer the routes in their order: one for each that wants the event, and none for
  -- the others.
  abbrev pub Answered : List FolderRoute → List ScanRequest → Type 0
  Answered [] requests = requests ≡ []
  Answered (r ∷ routes) requests =
      (Wants r
        × ((req : ScanRequest) × (rest : List ScanRequest) × (requests ≡ req ∷ rest)
            × IsRequestOf r req
            × Answered routes rest))
      ⊎ ((Wants r → ⊥) × Answered routes requests)

  Wants-of_matches : (r : FolderRoute) → route_matches lower event r ≡ true → Wants r
  unfolding route_matches
  Wants-of_matches r h = ground arith

  route_matches-of_Wants : (r : FolderRoute) → Wants r → route_matches lower event r ≡ true
  unfolding route_matches
  route_matches-of_Wants r h = ground arith

  scan_request-IsRequestOf : (r : FolderRoute) → IsRequestOf r (scan_request event r)
  unfolding scan_request
  scan_request-IsRequestOf r = go r.scan_mode refl
    where
      go :
          (mode : ScanMode)
          → r.scan_mode ≡ mode
          → let req = request_of_mode mode event r in
            (req.server_id ≡ r.server_id)
            × (req.server_name ≡ r.server_name)
            × (req.scan_mode ≡ r.scan_mode)
            × (req.library_id ≡ r.library_id)
            × (req.event_type ≡ event.event_type)
            × (req.file_path ≡ event.path)
            × Targets mode r req
      go targeted e = (refl, refl, refl, refl, refl, refl, (refl, refl, refl))
      go library e = (refl, refl, refl, refl, refl, refl, (refl, refl, refl))

  filter-Answered :
      (routes : List FolderRoute)
      → Answered routes (map (scan_request event) (filter (route_matches lower event) routes))
  filter-Answered [] = refl
  filter-Answered (r ∷ routes) = elim (Bool-cases (route_matches lower event r)) [
    | inl e ↦ rw e (
        inl (
          Wants-of_matches r e,
          (
            scan_request event r,
            map (scan_request event) (filter (route_matches lower event) routes),
            refl,
            scan_request-IsRequestOf r,
            filter-Answered routes,
          ),
        ))
    | inr e ↦ rw e (
        inr ((λ w. absurd (ground (arith, route_matches-of_Wants r w, e))), filter-Answered routes))
  ]

  -- An event in an ignored directory gives no request. Any other gives exactly one request for each
  -- route whose folder is a prefix of its path, whose extensions match it and whose event types
  -- have its type, in the order of the routes, and none for the rest. A request carries its
  -- route's server, mode and library, and the event's type and path; in targeted mode it scans the
  -- folder computed from the path, which is its key, and in library mode its key names the library.
  pub route_lem :
      (config : RuntimeConfig)
      → (is_ignored event.path config.ignore_dirs ≡ true → route lower event config ≡ [])
        × (is_ignored event.path config.ignore_dirs ≡ false
            → Answered config.routes (route lower event config))
  route_lem config = (
    λ h. rw (route-filter config, h) refl,
    λ h. rw (route-filter config, h) (filter-Answered config.routes),
  )
