-- ===== src/Servers/MediaServers.antt =====
-- mediascanmonitor/servers/plex.py, emby.py, jellyfin.py and audiobookshelf.py. The reading of a
-- library list from a response body (pydantic over its JSON) is a parameter, `none` for the
-- `ValueError` of a body that does not validate.
use syno_plex_change_monitor.Base.{
  ℕ, true, false, Option, none, some, List, [], ◌∷◌, ◌++◌, if◌then◌else◌,
}
use syno_plex_change_monitor.Base.Text.{Text, codes, rstrip, decimal}
use syno_plex_change_monitor.Models.{ScanMode, targeted}
use syno_plex_change_monitor.Config.{ServerRuntime}
use syno_plex_change_monitor.Pipeline.Events.{ScanRequest}
use syno_plex_change_monitor.Pipeline.Router.{format_option, is_slash}
use syno_plex_change_monitor.Servers.Common.{
  TriggerResult, TestResult, LibraryOption, LibraryListResult, Outcome, returned, raised,
}
use syno_plex_change_monitor.Servers.Http.{
  Request, is_success, Attempt, done, failed, retryable_status, transport, http, other, Retrying,
  request_with_retry, Reply,
}
use syno_plex_change_monitor.Servers.Quote.{quote}

-- `secret or ""`
abbrev pub secret_text : Option Text → Text
secret_text none = []
secret_text (some secret) = secret

abbrev pub base_of : ServerRuntime → Text
base_of server = rstrip is_slash server.base_url

-- The four backends with an API of their own.
pub data MediaServer : Type 0 where
  plex emby jellyfin audiobookshelf : MediaServer

abbrev pub headers_of : MediaServer → ServerRuntime → List (Text × Text)
headers_of plex server = (codes "X-Plex-Token", secret_text server.secret) ∷ []
headers_of emby server = (codes "X-Emby-Token", secret_text server.secret) ∷ []
headers_of jellyfin server =
    (
      codes "Authorization",
      codes "MediaBrowser Token=\"" ++ secret_text server.secret ++ codes "\"",
    )
    ∷ []
headers_of audiobookshelf server =
    (codes "Authorization", codes "Bearer " ++ secret_text server.secret) ∷ []

-- Plex alone scans one folder of a library.
abbrev plex_query : ScanMode → Option Text → Text
plex_query targeted (some path) = codes "?path=" ++ quote path
plex_query _ _ = []

abbrev plex_trigger : ServerRuntime → ScanRequest → Request
plex_trigger server req = record {
  method = codes "GET";
  url =
      base_of server
      ++ codes "/library/sections/"
      ++ format_option req.library_id
      ++ codes "/refresh"
      ++ plex_query req.scan_mode req.scan_path;
  headers = headers_of plex server;
  content = none;
}

abbrev emby_trigger : ServerRuntime → ScanRequest → Request
emby_trigger server req = record {
  method = codes "POST";
  url =
      base_of server
      ++ codes "/Items/"
      ++ format_option req.library_id
      ++ codes "/Refresh?Recursive=true";
  headers = headers_of emby server;
  content = none;
}

abbrev jellyfin_trigger : ServerRuntime → ScanRequest → Request
jellyfin_trigger server req = record {
  method = codes "POST";
  url =
      base_of server
      ++ codes "/Items/"
      ++ format_option req.library_id
      ++ codes "/Refresh"
      ++ codes "?Recursive=true&metadataRefreshMode=Default&imageRefreshMode=Default";
  headers = headers_of jellyfin server;
  content = none;
}

abbrev audiobookshelf_trigger : ServerRuntime → ScanRequest → Request
audiobookshelf_trigger server req = record {
  method = codes "POST";
  url = base_of server ++ codes "/api/libraries/" ++ format_option req.library_id ++ codes "/scan";
  headers = headers_of audiobookshelf server;
  content = none;
}

unfoldable pub trigger_request : MediaServer → ServerRuntime → ScanRequest → Request
unfolding rstrip quote
trigger_request plex = plex_trigger
trigger_request emby = emby_trigger
trigger_request jellyfin = jellyfin_trigger
trigger_request audiobookshelf = audiobookshelf_trigger

abbrev get_request : Text → List (Text × Text) → ServerRuntime → Request
get_request path headers server = record {
  method = codes "GET";
  url = base_of server ++ path;
  headers = headers;
  content = none;
}

abbrev pub test_path : MediaServer → Text
test_path plex = codes "/identity"
test_path emby = codes "/System/Info"
test_path jellyfin = codes "/System/Info"
test_path audiobookshelf = codes "/api/me"

unfoldable pub test_request : MediaServer → ServerRuntime → Request
unfolding rstrip
test_request kind server = get_request (test_path kind) (headers_of kind server) server

abbrev pub libraries_path : MediaServer → Text
libraries_path plex = codes "/library/sections"
libraries_path emby = codes "/Library/VirtualFolders"
libraries_path jellyfin = codes "/Library/VirtualFolders"
libraries_path audiobookshelf = codes "/api/libraries"

abbrev libraries_headers : MediaServer → ServerRuntime → List (Text × Text)
libraries_headers plex server =
    headers_of plex server ++ ((codes "Accept", codes "application/json") ∷ [])
libraries_headers kind server = headers_of kind server

unfoldable pub libraries_request : MediaServer → ServerRuntime → Request
unfolding rstrip
libraries_request kind server =
    get_request (libraries_path kind) (libraries_headers kind server) server

abbrev pub triggered_detail : MediaServer → Text
triggered_detail plex = codes "Plex scan triggered"
triggered_detail emby = codes "Emby refresh triggered"
triggered_detail jellyfin = codes "Jellyfin refresh triggered"
triggered_detail audiobookshelf = codes "Audiobookshelf scan triggered"

abbrev pub status_detail : ℕ → Text
status_detail status = codes "HTTP " ++ decimal status

-- The returns of `trigger`: `except httpx.HTTPError` catches transport errors and the other
-- errors of httpx, and nothing else.
abbrev pub trigger_result : Text → Attempt → Outcome TriggerResult
trigger_result detail (done r) = returned (
    if is_success r
    then record { ok = true; status_code = some r.status_code; detail = detail }
    else record {
      ok = false;
      status_code = some r.status_code;
      detail = status_detail r.status_code;
    })
trigger_result detail (failed (transport e)) =
    returned (record { ok = false; status_code = none; detail = e })
trigger_result detail (failed (http e)) =
    returned (record { ok = false; status_code = none; detail = e })
trigger_result detail (failed (other e)) = raised e
trigger_result detail (failed (retryable_status r)) = raised []

abbrev pub test_result : Attempt → Outcome TestResult
test_result (done r) = returned (
    if is_success r
    then record { ok = true; detail = codes "reachable" }
    else record { ok = false; detail = status_detail r.status_code })
test_result (failed (transport e)) = returned (record { ok = false; detail = e })
test_result (failed (http e)) = returned (record { ok = false; detail = e })
test_result (failed (other e)) = raised e
test_result (failed (retryable_status r)) = raised []

abbrev pub unexpected_detail : MediaServer → Text
unexpected_detail plex = codes "unexpected response from Plex"
unexpected_detail emby = codes "unexpected response from Emby"
unexpected_detail jellyfin = codes "unexpected response from Jellyfin"
unexpected_detail audiobookshelf = codes "unexpected response from Audiobookshelf"

abbrev no_libraries : Text → LibraryListResult
no_libraries detail = record { ok = false; detail = detail; libraries = [] }

abbrev pub validated : MediaServer → Option (List LibraryOption) → LibraryListResult
validated kind none = no_libraries (unexpected_detail kind)
validated kind (some libraries) = record { ok = true; detail = []; libraries = libraries }

abbrev pub libraries_result :
    MediaServer
    → (MediaServer → Text → Option (List LibraryOption))
    → Attempt
    → Outcome LibraryListResult
libraries_result kind read (done r) = returned (
    if is_success r
    then validated kind (read kind r.body)
    else no_libraries (status_detail r.status_code))
libraries_result kind read (failed (transport e)) = returned (no_libraries e)
libraries_result kind read (failed (http e)) = returned (no_libraries e)
libraries_result kind read (failed (other e)) = raised e
libraries_result kind read (failed (retryable_status r)) = raised []

-- `send` answers each attempt of a request.
module _ (retrying : Retrying) (send : Request → ℕ → Reply) where
  unfoldable pub trigger : MediaServer → ServerRuntime → ScanRequest → Outcome TriggerResult
  unfolding request_with_retry trigger_request decimal
  trigger kind server req =
      trigger_result (triggered_detail kind)
        (request_with_retry retrying server.retry_attempts (send (trigger_request kind server req)))

  unfoldable pub test : MediaServer → ServerRuntime → Outcome TestResult
  unfolding request_with_retry test_request decimal
  test kind server = test_result (request_with_retry retrying 1 (send (test_request kind server)))

  unfoldable pub list_libraries :
      (MediaServer → Text → Option (List LibraryOption))
      → MediaServer
      → ServerRuntime
      → Outcome LibraryListResult
  unfolding request_with_retry libraries_request decimal
  list_libraries read kind server =
      libraries_result kind read
        (request_with_retry retrying 1 (send (libraries_request kind server)))
