-- ===== src/Lib.antt =====
-- media-scan-monitor: a daemon that watches media folders and tells media servers what to scan.
--
-- An event of the file system passes the watcher (mediascanmonitor/watcher), is matched against
-- the folders of the servers (pipeline/router.py), waits in the debouncer (pipeline/debounce.py)
-- and is sent by a server's adapter (pipeline/dispatcher.py, servers/). Servers and folders are
-- rows of a database (db/), from which a snapshot is built for the pipeline
-- (config/runtime.py); the engine (engine.py) builds the pipeline of it and
-- swaps it when a row changes. The modules follow the packages of mediascanmonitor/:
--   Models, Db.Schemas, Db.Tables, Db.Repo   db/models.py, db/schemas.py, db/repo.py
--   Db.Crypto                                db/crypto.py: the key of the secrets
--   Normalize                                normalize.py, with posixpath.normpath
--   Config, Config.Build                     config/defaults.py, config/runtime.py
--   Pipeline.Events, .Filters, .Router       pipeline/events.py, filters.py, router.py
--   Pipeline.Debounce, .Dispatcher           pipeline/debounce.py, dispatcher.py
--   Servers.Http, .MediaServers, .Webhook    servers/http.py; plex.py, emby.py, jellyfin.py and
--                                            audiobookshelf.py; webhook.py, webhook_presets.py
--   Servers.Common, .Registry, .Quote        servers/base.py, registry.py; urllib.parse.quote
--   Observ.EventsBus                         observ/events_bus.py (both buses)
--   Watcher.FileTree, .WatchLimit, .Inotify  os.walk; watcher/watch_limit.py, inotify_backend.py
--   Engine, Engine.Control, .Events          engine.py, which holds the parts together; while an
--                                            event is handled, timers wake and rebuilds swap
--   Web.RateLimit, Web.Auth                  web/ratelimit.py; web/auth.py, web/deps.py
--   Web.TypeSpecs, .ReadModels, .Writes      web/api_schemas.py; web/writes.py, web/rebuild.py
--   Web.Probe, .Browse                       web/serverprobe.py; web/fsbrowse.py
--   Web.Api                                  web/api/ and the state of web/app.py
--   Web.Forms, .Pages                        web/pages.py: its forms and its pages
--   Cli                                      web/server.py and the commands of cli.py
--   Tests                                    runs at concrete data
-- A method that changes its object is a function from a record to a record under the method's
-- name. An exception is a value: `none`, an error of the database, or an outcome of a call.
--
-- A text is the list of its code points; a set is a list in the order in which Python would
-- iterate over it; a float is a number of thousandths, a reading of the clock a number of ticks.
-- The integers of a server's settings are naturals: what the code does with a negative number of
-- attempts or length of a window is not modelled. All recursion is structural, but for the decimal
-- digits of a number, whose fuel is the number itself. Parameters: `str.lower`, the encryption,
-- tenacity's retry loop, the network's replies, Jinja, the JSON readers, Argon2, the directory
-- trees and the kernel's limits. Not modelled: the templates of web/, its event
-- streams, the parsing of the command line, the migrations, the logging and the script that seeds a
-- database for development, which wire these parts together or only do input and
-- output; and `serve_headless` of cli.py, whose end depends on when the watcher's stream ends.
pub mod Base
pub mod Cli
pub mod Config
pub mod Db
pub mod Engine
pub mod Models
pub mod Normalize
pub mod Observ
pub mod Pipeline
pub mod Servers
pub mod Tests
pub mod Watcher
pub mod Web
