-- ===== src/Web/Probe.antt =====
-- mediascanmonitor/web/serverprobe.py: one call of a server's adapter, outside the engine. The
-- client that is opened and closed around the call has no other effect. `none` stands for the
-- `ValueError` of a type that has no adapter.
use syno_plex_change_monitor.Base.{false, not, Option, some, [], if◌then◌else◌}
use syno_plex_change_monitor.Base.Partial.{◌>>=◌}
use syno_plex_change_monitor.Base.Text.{Text, codes}
use syno_plex_change_monitor.Models.{Server}
use syno_plex_change_monitor.Config.{ServerRuntime}
use syno_plex_change_monitor.Db.Schemas.{ServerCreate}
use syno_plex_change_monitor.Servers.Common.{
  TestResult, LibraryListResult, Outcome, returned, ServerAdapter,
}
use syno_plex_change_monitor.Servers.Registry.{Registered, create_adapter}

-- `runtime_from_server` is field by field what `build_runtime_config` makes of a row.
abbrev pub runtime_from_server : Server → Option Text → ServerRuntime
runtime_from_server server secret = record {
  server_id = server.id;
  name = server.name;
  type = server.type;
  base_url = server.base_url;
  verify_tls = server.verify_tls;
  timeout_seconds = server.timeout_seconds;
  secret = secret;
  scan_mode = server.scan_mode;
  debounce_mode = server.debounce_mode;
  debounce_window_seconds = server.debounce_window_seconds;
  retry_attempts = server.retry_attempts;
  webhook_method = server.webhook_method;
  webhook_headers_json = server.webhook_headers_json;
  webhook_body_template = server.webhook_body_template;
  webhook_payload_preset = server.webhook_payload_preset;
}

abbrev pub runtime_from_create : ServerCreate → ServerRuntime
runtime_from_create input = record {
  server_id = 0;
  name = input.name;
  type = input.type;
  base_url = input.base_url;
  verify_tls = input.verify_tls;
  timeout_seconds = input.timeout_seconds;
  secret = input.secret;
  scan_mode = input.scan_mode;
  debounce_mode = input.debounce_mode;
  debounce_window_seconds = input.debounce_window_seconds;
  retry_attempts = input.retry_attempts;
  webhook_method = input.webhook_method;
  webhook_headers_json = input.webhook_headers_json;
  webhook_body_template = input.webhook_body_template;
  webhook_payload_preset = input.webhook_payload_preset;
}

-- `_with_adapter`
unfoldable pub with_adapter :
    {A : Type 0} → Registered → (ServerAdapter → Outcome A) → ServerRuntime → Option (Outcome A)
unfolding create_adapter
with_adapter registry call runtime = do
  adapter ← create_adapter registry runtime
  some (call adapter)

unfoldable pub run_connectivity_test : Registered → ServerRuntime → Option (Outcome TestResult)
unfolding with_adapter
run_connectivity_test registry runtime = with_adapter registry (λ adapter. adapter.test) runtime

-- `_list`
abbrev list_with : ServerAdapter → Outcome LibraryListResult
list_with adapter =
    if not adapter.supports_library_discovery
    then returned (record {
      ok = false;
      detail = codes "This server type has no libraries to list.";
      libraries = [];
    })
    else adapter.list_libraries

unfoldable pub run_library_listing : Registered → ServerRuntime → Option (Outcome LibraryListResult)
unfolding with_adapter
run_library_listing registry runtime = with_adapter registry list_with runtime
