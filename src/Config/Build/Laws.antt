-- ===== src/Config/Build/Laws.antt =====
-- What the snapshot holds.
use syno_plex_change_monitor.Base.{
  ℕ, ◌≡◌, refl, ◌∙◌, true, ◌||◌, Option, none, some, List, [], ◌∷◌, ◌++◌, arith, ◌==◌, inl, inr,
  Bool-cases, nat_eq, list_eq, contains,
}
use syno_plex_change_monitor.Base.Dict.{Dict, insert, has_key, has_key-insert}
use syno_plex_change_monitor.Base.Lists.{All, All-map, All-append, any, any-append, contains-append}
use syno_plex_change_monitor.Base.Partial.{◌>>=◌}
use syno_plex_change_monitor.Base.Text.{Text}
use syno_plex_change_monitor.Models.{Server}
use syno_plex_change_monitor.Models.EventTypes.{parse_event_types}
use mathlib.Core.Path.{subst}
use mathlib.Core.Option.{some-injective}
use syno_plex_change_monitor.Config.{ServerRuntime, FolderRoute, RuntimeConfig}
use syno_plex_change_monitor.Config.Build.{
  Parts, add_path, runtime_of, route_of, add_route, folder_loop, server_loop, build_runtime_config,
}
use syno_plex_change_monitor.Db.Tables.{Tables}
use syno_plex_change_monitor.Db.Repo.{LoadedFolder, list_servers, list_folders, resolve_secret}

-- A route's folder is watched, and its server is in the snapshot.
abbrev pub RouteIsCovered : List Text → Dict ℕ ServerRuntime → FolderRoute → Type 0
RouteIsCovered watch_paths servers route =
    (contains watch_paths route.path ≡ true) × (has_key route.server_id servers ≡ true)

-- A watched path is the folder of a route.
abbrev pub PathIsRouted : List FolderRoute → Text → Type 0
PathIsRouted routes path = any (λ route. route.path == path) routes ≡ true

pub record IsCovered (parts : Parts) : Type 0 where
  pub routes : All (RouteIsCovered parts.watch_paths parts.servers) parts.routes
  pub paths : All (PathIsRouted parts.routes) parts.watch_paths

bind-eq-some {ℓ κ} :
    {A : Type ℓ} {B : Type κ} (m : Option A) (f : A → Option B) {b : B}
    → (m >>= f) ≡ some b
    → (a : A) × (m ≡ some a) × (f a ≡ some b)
bind-eq-some none f h = cc
bind-eq-some (some a) f h = (a, refl, h)

contains-add_path :
    (path p : Text) (paths : List Text)
    → contains (add_path path paths) p ≡ (contains paths p || p == path)
unfolding add_path
contains-add_path path p paths = ground (arith, contains-append paths (path ∷ []) p)

add_path-routed :
    (routes : List FolderRoute) (path : Text) (paths : List Text)
    → All (PathIsRouted routes) paths
    → PathIsRouted routes path
    → All (PathIsRouted routes) (add_path path paths)
unfolding add_path
add_path-routed routes path paths h k = elim (Bool-cases (contains paths path)) [
  | inl e ↦ rw e h
  | inr e ↦ rw e (All-append (PathIsRouted routes) paths (path ∷ []) h (k, tt))
]

routed_more :
    (routes : List FolderRoute) (route : FolderRoute) (path : Text)
    → PathIsRouted routes path
    → PathIsRouted (routes ++ (route ∷ [])) path
routed_more routes route path h = any-append (λ r. r.path == path) routes (route ∷ []) ∙ rw h refl

routed_last :
    (routes : List FolderRoute) (route : FolderRoute)
    → PathIsRouted (routes ++ (route ∷ [])) route.path
routed_last routes route = any-append (λ r. r.path == route.path) routes (route ∷ []) ∙ ground arith

covered_more :
    (paths : List Text) (path : Text) (servers : Dict ℕ ServerRuntime) (route : FolderRoute)
    → RouteIsCovered paths servers route
    → RouteIsCovered (add_path path paths) servers route
covered_more paths path servers route (h, k) =
    (contains-add_path path route.path paths ∙ rw h refl, k)

covered_insert :
    (paths : List Text) (id : ℕ) (runtime : ServerRuntime) (servers : Dict ℕ ServerRuntime)
    (route : FolderRoute)
    → RouteIsCovered paths servers route
    → RouteIsCovered paths (insert id runtime servers) route
covered_insert paths id runtime servers route (h, k) =
    (h, has_key-insert route.server_id id runtime servers ∙ ground arith)

-- The parts with one more route.
abbrev extended : FolderRoute → Parts → Parts
extended route parts = record parts {
  watch_paths = add_path route.path parts.watch_paths;
  routes = parts.routes ++ (route ∷ []);
}

extended-IsCovered :
    (route : FolderRoute) (parts : Parts)
    → has_key route.server_id parts.servers ≡ true
    → IsCovered parts
    → IsCovered (extended route parts)
extended-IsCovered route parts k c = record {
  routes =
      All-append (RouteIsCovered (add_path route.path parts.watch_paths) parts.servers) parts.routes
        (route ∷ [])
        (All-map (RouteIsCovered parts.watch_paths parts.servers)
          (RouteIsCovered (add_path route.path parts.watch_paths) parts.servers)
          (covered_more parts.watch_paths route.path parts.servers) parts.routes c.routes)
        ((contains-add_path route.path route.path parts.watch_paths ∙ ground arith, k), tt);
  paths =
      add_path-routed (parts.routes ++ (route ∷ [])) route.path parts.watch_paths
        (All-map (PathIsRouted parts.routes) (PathIsRouted (parts.routes ++ (route ∷ [])))
          (routed_more parts.routes route) parts.watch_paths c.paths)
        (routed_last parts.routes route);
}

-- What a loop keeps: coverage, and the servers that are in already.
abbrev Keeps : Parts → Parts → Type 0
Keeps parts next =
    IsCovered next × ((id : ℕ) → has_key id parts.servers ≡ true → has_key id next.servers ≡ true)

module _ (lower : Text → Text) where
  add_route-Keeps :
      (server : Server) (folder : LoadedFolder) (parts next : Parts)
      → add_route lower server folder parts ≡ some next
      → has_key server.id parts.servers ≡ true
      → IsCovered parts
      → Keeps parts next
  unfolding add_route
  add_route-Keeps server folder parts next h k c =
      let (types, _, q) = bind-eq-some (parse_event_types server.event_types) _ h in
      subst (Keeps parts) (some-injective _ _ q)
        (extended-IsCovered (route_of lower server folder types) parts k c, λ id e. e)

  folder_loop-Keeps :
      (server : Server) (folders : List LoadedFolder) (parts next : Parts)
      → folder_loop lower server folders parts ≡ some next
      → has_key server.id parts.servers ≡ true
      → IsCovered parts
      → Keeps parts next
  unfolding folder_loop
  folder_loop-Keeps server [] parts next h k c =
      subst (Keeps parts) (some-injective _ _ h) (c, λ id e. e)
  folder_loop-Keeps server (folder ∷ folders) parts next h k c =
      elim (Bool-cases folder.row.enabled) [
        | inr off ↦ folder_loop-Keeps server folders parts next (rw off at h) k c
        | inl on ↦
            let (middle, first, rest) =
              bind-eq-some (add_route lower server folder parts) (folder_loop lower server folders)
                (rw on at h) in
            let (c', keeps) = add_route-Keeps server folder parts middle first k c in
            let (c'', keeps') =
              folder_loop-Keeps server folders middle next rest (keeps server.id k) c' in
            (c'', λ id e. keeps' id (keeps id e))
      ]

  module _ (decrypt : Text → Option Text) (t : Tables) where
    server_loop-IsCovered :
        (servers : List Server) (parts next : Parts)
        → server_loop lower decrypt t servers parts ≡ some next
        → IsCovered parts
        → IsCovered next
    unfolding server_loop
    server_loop-IsCovered [] parts next h c = subst IsCovered (some-injective _ _ h) c
    server_loop-IsCovered (server ∷ servers) parts next h c =
        let (secret, _, h') = bind-eq-some (resolve_secret decrypt server) _ h in
        let more : Parts = record parts {
          servers = insert server.id (runtime_of server secret) parts.servers;
        } in
        let (middle, first, rest) =
          bind-eq-some (folder_loop lower server (list_folders server.id t) more)
            (server_loop lower decrypt t servers) h' in
        let covered : IsCovered more = record {
          routes =
              All-map (RouteIsCovered parts.watch_paths parts.servers)
                (RouteIsCovered parts.watch_paths more.servers)
                (covered_insert parts.watch_paths server.id (runtime_of server secret)
                  parts.servers)
                parts.routes c.routes;
          paths = c.paths;
        } in
        let known : has_key server.id more.servers ≡ true =
          has_key-insert server.id server.id (runtime_of server secret) parts.servers
          ∙ ground arith in
        server_loop-IsCovered servers middle next rest
          (folder_loop-Keeps server (list_folders server.id t) more middle first known covered).0

    -- In a snapshot every route's folder is watched and its server is among the servers, and
    -- every watched path is the folder of some route.
    pub build_runtime_config-IsCovered :
        (config : RuntimeConfig)
        → build_runtime_config lower decrypt t ≡ some config
        → All (RouteIsCovered config.watch_paths config.servers) config.routes
          × All (PathIsRouted config.routes) config.watch_paths
    unfolding build_runtime_config
    build_runtime_config-IsCovered config h =
        let (parts, first, q) =
          bind-eq-some (server_loop lower decrypt t (list_servers true t) _) _ h in
        let c =
          server_loop-IsCovered (list_servers true t) _ parts first
            (record { routes = tt; paths = tt }) in
        subst
          (λ (r : RuntimeConfig).
            All (RouteIsCovered r.watch_paths r.servers) r.routes
            × All (PathIsRouted r.routes) r.watch_paths)
          (some-injective _ _ q) (c.routes, c.paths)
