-- ===== src/Servers/Webhook.antt =====
-- mediascanmonitor/servers/webhook.py and webhook_presets.py. Jinja's rendering, the reading of
-- the headers' JSON and `str.upper` are parameters.
use syno_plex_change_monitor.Base.{
  ℕ, Bool, true, false, Option, none, some, List, [], ◌∷◌, if◌then◌else◌, nat_eq, list_eq,
}
use syno_plex_change_monitor.Base.Dict.{Dict, insert}
use syno_plex_change_monitor.Base.Text.{Text, codes, strip, is_space, decimal}
use syno_plex_change_monitor.Models.{WebhookPreset, custom, sonarr_radarr, created, event_value}
use syno_plex_change_monitor.Config.{ServerRuntime}
use syno_plex_change_monitor.Pipeline.Events.{ScanRequest}
use syno_plex_change_monitor.Servers.Common.{
  TriggerResult, TestResult, Outcome, returned, raised, cancelled,
}
use syno_plex_change_monitor.Servers.Http.{Request, Retrying, request_with_retry, Reply}
use syno_plex_change_monitor.Servers.MediaServers.{secret_text, status_detail, trigger_result}

pub record Context : Type 0 where
  pub event_type : Text
  pub file_path : Text
  pub host_path : Text
  pub scan_path : Option Text
  pub top_folder : Option Text
  pub library_id : Option Text
  pub server_name : Text
  pub app_name : Text
  pub secret : Text
  pub is_test : Bool

-- A text, or an exception: one that `_send` catches (`TemplateError`, `ValueError`), or another.
pub data Rendered {ℓ} (A : Type ℓ) : Type ℓ where
  rendered : A → Rendered A
  caught uncaught : Text → Rendered A

infixl 5 ◌>>=◌
abbrev pub ◌>>=◌ {ℓ κ} : {A : Type ℓ} {B : Type κ} → Rendered A → (A → Rendered B) → Rendered B
rendered a >>= f = f a
caught e >>= f = caught e
uncaught e >>= f = uncaught e

-- What the headers' JSON holds: an object, as `str` of its keys and values; another value; or it
-- does not parse.
pub data HeadersJson : Type 0 where
  object : List (Text × Text) → HeadersJson
  not_object : HeadersJson
  invalid : Text → HeadersJson

-- `DEFAULT_BODY_TEMPLATE`
abbrev pub default_body_template : Text
default_body_template =
    codes
      "{\n  \"event\": {{ event_type | tojson }},\n  \"file_path\": {{ file_path | tojson }},\n  \"scan_path\": {{ scan_path | tojson }},\n  \"top_folder\": {{ top_folder | tojson }},\n  \"library_id\": {{ library_id | tojson }},\n  \"server\": {{ server_name | tojson }}\n}"

-- `_SONARR_RADARR_TEMPLATE`
abbrev pub sonarr_radarr_template : Text
sonarr_radarr_template =
    codes
      "{\n  \"eventType\": {{ (\"Test\" if is_test else \"Download\") | tojson }},\n  \"instanceName\": {{ app_name | tojson }},\n  \"file_path\": {{ file_path | tojson }}\n}"

-- `get_preset`, with its `ValueError` as `none`, cut to the body template.
unfoldable pub get_preset : WebhookPreset → Option Text
get_preset custom = none
get_preset sonarr_radarr = some sonarr_radarr_template

-- `value or default`
abbrev pub or_default : Option Text → Text → Text
or_default none default = default
or_default (some []) default = default
or_default (some (c ∷ s)) default = c ∷ s

abbrev pub context_of : Text → ServerRuntime → ScanRequest → Bool → Context
context_of app_name server req is_test = record {
  event_type = event_value req.event_type;
  file_path = req.file_path;
  host_path = req.file_path;
  scan_path = req.scan_path;
  top_folder = req.top_folder;
  library_id = req.library_id;
  server_name = server.name;
  app_name = app_name;
  secret = secret_text server.secret;
  is_test = is_test;
}

-- The template that is rendered, or the `ValueError` of a preset without one.
unfoldable pub body_template : ServerRuntime → WebhookPreset → Option Text
unfolding get_preset
body_template server custom = some (or_default server.webhook_body_template default_body_template)
body_template server preset = get_preset preset

abbrev failure : Text → TriggerResult
failure detail = record { ok = false; status_code = none; detail = detail }

module _ (render : Text → Context → Rendered Text) (read_json : Text → HeadersJson)
    (upper : Text → Text) (app_name : Text) where
  unfoldable pub add_headers :
      Context → Dict Text Text → List (Text × Text) → Rendered (Dict Text Text)
  unfolding insert list_eq nat_eq
  add_headers context headers [] = rendered headers
  add_headers context headers ((key, value) ∷ raw) = do
    text ← render value context
    add_headers context (insert key text headers) raw

  abbrev headers_from : Context → HeadersJson → Rendered (Dict Text Text)
  headers_from context (object raw) =
      add_headers context ((codes "Content-Type", codes "application/json") ∷ []) raw
  headers_from context not_object =
      caught (codes "ValueError: webhook_headers_json must be a JSON object")
  headers_from context (invalid e) = caught e

  unfoldable pub headers : ServerRuntime → Context → Rendered (Dict Text Text)
  unfolding add_headers
  headers server context =
      headers_from context (read_json (or_default server.webhook_headers_json (codes "{}")))

  -- The rendered request, or the exception.
  unfoldable pub webhook_request : ServerRuntime → Text → Text → Context → Rendered Request
  unfolding headers
  webhook_request server url template context = do
    body ← render template context
    fields ← headers server context
    rendered (record {
      method = upper (or_default server.webhook_method (codes "POST"));
      url = url;
      headers = fields;
      content = some body;
    })

  module _ (retrying : Retrying) (send : Request → ℕ → Reply) where
    abbrev deliver : ServerRuntime → Rendered Request → Outcome TriggerResult
    deliver server (rendered request) =
        trigger_result (codes "webhook delivered")
          (request_with_retry retrying server.retry_attempts (send request))
    deliver server (caught e) = returned (failure e)
    deliver server (uncaught e) = raised e

    abbrev send_template : ServerRuntime → Text → Context → Option Text → Outcome TriggerResult
    send_template server url context none = raised (codes "no webhook preset registered")
    send_template server url context (some template) =
        deliver server (webhook_request server url template context)

    abbrev send_to : ServerRuntime → ScanRequest → Bool → Text → Outcome TriggerResult
    send_to server req is_test [] = returned (failure (codes "webhook url (base_url) is empty"))
    send_to server req is_test (c ∷ url) =
        send_template server (c ∷ url) (context_of app_name server req is_test)
          (body_template server server.webhook_payload_preset)

    -- `_send`
    unfoldable pub send_request : ServerRuntime → ScanRequest → Bool → Outcome TriggerResult
    unfolding strip is_space webhook_request body_template request_with_retry decimal
    send_request server req is_test = send_to server req is_test (strip is_space server.base_url)

    unfoldable pub trigger : ServerRuntime → ScanRequest → Outcome TriggerResult
    unfolding send_request
    trigger server req = send_request server req false

    abbrev pub probe : ServerRuntime → ScanRequest
    probe server = record {
      server_id = server.server_id;
      server_name = server.name;
      scan_mode = server.scan_mode;
      scan_path = none;
      library_id = none;
      scan_key = codes "test";
      event_type = created;
      file_path = codes "/__msm_test__";
      top_folder = none;
    }

    abbrev detail_of : TriggerResult → Option ℕ → TestResult
    detail_of result none = record { ok = false; detail = result.detail }
    detail_of result (some status) = record { ok = false; detail = status_detail status }

    abbrev as_test : Outcome TriggerResult → Outcome TestResult
    as_test (returned result) = returned (
        if result.ok
        then record { ok = true; detail = codes "reachable" }
        else detail_of result result.status_code)
    as_test (raised e) = raised e
    as_test cancelled = cancelled

    unfoldable pub test : ServerRuntime → Outcome TestResult
    unfolding send_request
    test server = as_test (send_request server (probe server) true)
