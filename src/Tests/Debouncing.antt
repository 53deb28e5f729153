-- ===== src/Tests/Debouncing.antt =====
-- Runs of the debouncer.
use syno_plex_change_monitor.Base.{
  ℕ, ◌≡◌, refl, true, false, none, some, List, [], ◌∷◌, ◌++◌, nat_eq, list_eq, pair_eq,
  if◌then◌else◌, contains,
}
use syno_plex_change_monitor.Base.Dict.{Dict, lookup, has_key}
use syno_plex_change_monitor.Base.Text.{Text, codes}
use syno_plex_change_monitor.Models.{plex, targeted, trailing, custom, created}
use syno_plex_change_monitor.Config.{ServerRuntime}
use syno_plex_change_monitor.Pipeline.Events.{ScanRequest}
use syno_plex_change_monitor.Pipeline.Debounce.{
  aclose, Key, Debouncer, create, submit, update_servers, wake_all,
}
use syno_plex_change_monitor.Pipeline.Debounce.Valid.{create-IsValid}
use syno_plex_change_monitor.Pipeline.Debounce.Burst.{submit_all, dispatched_for, burst_fires_once}
use syno_plex_change_monitor.Pipeline.Debounce.Update.{update_servers_lem, aclose_quiet}

abbrev pub server : ServerRuntime
server = record {
  server_id = 1;
  name = codes "plex";
  type = plex;
  base_url = codes "http://plex";
  verify_tls = true;
  timeout_seconds = 10000;
  secret = some (codes "t");
  scan_mode = targeted;
  debounce_mode = trailing;
  debounce_window_seconds = 30;
  retry_attempts = 3;
  webhook_method = none;
  webhook_headers_json = none;
  webhook_body_template = none;
  webhook_payload_preset = custom;
}

abbrev pub request : Text → ScanRequest
request file = record {
  server_id = 1;
  server_name = codes "plex";
  scan_mode = targeted;
  scan_path = some (codes "/tv/show");
  library_id = some (codes "2");
  scan_key = codes "/tv/show";
  event_type = created;
  file_path = file;
  top_folder = some (codes "show");
}

abbrev key : Key
key = (1, codes "/tv/show")

abbrev fresh : Debouncer
fresh = create ((1, server) ∷ [])

abbrev burst : List (ℕ × ScanRequest)
burst = (5, request (codes "/tv/show/a")) ∷ (9, request (codes "/tv/show/b")) ∷ []

burst_fires_once_example :
    let before = submit_all burst fresh in
    let after = submit 12 (request (codes "/tv/show/c")) before in
    (lookup key after.timers ≡ some before.next_task)
    × (lookup before.next_task after.tasks
        ≡ some
            (record { key = key; req = request (codes "/tv/show/c"); due = 42; cancelled = false }))
    × (dispatched_for key (wake_all (0 ∷ 2 ∷ 1 ∷ 2 ∷ []) after)
        ≡ dispatched_for key fresh
          ++ (if contains (0 ∷ 2 ∷ 1 ∷ 2 ∷ []) before.next_task
              then request (codes "/tv/show/c") ∷ []
              else []))
unfolding create lookup nat_eq
burst_fires_once_example =
    burst_fires_once key server refl burst 12 (request (codes "/tv/show/c")) (0 ∷ 2 ∷ 1 ∷ 2 ∷ [])
      fresh (create-IsValid ((1, server) ∷ [])) refl (refl, (refl, tt)) refl

burst_run :
    (wake_all
      (0 ∷ 2 ∷ 1 ∷ 2 ∷ [])
      (submit 12 (request (codes "/tv/show/c")) (submit_all burst fresh))).dispatched
    ≡ request (codes "/tv/show/c") ∷ []
unfolding submit_all wake_all create
burst_run = refl

abbrev no_servers : Dict ℕ ServerRuntime
no_servers = []

update_servers_lem_example :
    (has_key 1 no_servers ≡ true
      → lookup key (update_servers no_servers fresh).timers ≡ lookup key fresh.timers)
    × (has_key 1 no_servers ≡ false
        → (lookup key (update_servers no_servers fresh).timers ≡ none)
          × (dispatched_for key (wake_all (0 ∷ []) (update_servers no_servers fresh))
              ≡ dispatched_for key fresh))
update_servers_lem_example =
    update_servers_lem no_servers key (0 ∷ []) fresh (create-IsValid ((1, server) ∷ []))

update_run :
    (wake_all (0 ∷ 1 ∷ []) (update_servers no_servers (submit_all burst fresh))).dispatched ≡ []
unfolding submit_all wake_all create update_servers
update_run = refl

aclose_quiet_example :
    ((aclose (submit_all burst fresh)).timers ≡ [])
    × ((wake_all (0 ∷ 1 ∷ []) (aclose (submit_all burst fresh))).dispatched
        ≡ (submit_all burst fresh).dispatched)
aclose_quiet_example = aclose_quiet (0 ∷ 1 ∷ []) (submit_all burst fresh)
