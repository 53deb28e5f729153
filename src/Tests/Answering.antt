-- ===== src/Tests/Answering.antt =====
-- Runs of the routes, of the read models, and of the directory browser.
use syno_plex_change_monitor.Base.{◌↔◌}
use syno_plex_change_monitor.Web.Pages.Views.{offers_clear, detail_context, clearable_lem}
use syno_plex_change_monitor.Web.ReadModels.{ServerRead}
use syno_plex_change_monitor.Models.{library, plex}
use syno_plex_change_monitor.Web.Forms.{ServerForm, update_input}
use syno_plex_change_monitor.Web.Forms.Saving.{SecretAfter, update_form_lem}
use syno_plex_change_monitor.Models.{Server, targeted, trailing, custom, created, moved_to}
use syno_plex_change_monitor.Base.{
  none, ◌≡◌, ◌≢◌, refl, true, false, Option, some, List, [], ◌∷◌, arith, nat_eq, list_eq,
}
use syno_plex_change_monitor.Base.Text.{Text, codes}
use syno_plex_change_monitor.Db.Schemas.{ServerUpdate, FolderUpdate, unset, sent}
use syno_plex_change_monitor.Db.Tables.{find_server, empty}
use syno_plex_change_monitor.Db.Repo.{
  LoadedFolder, load, server_row, get_folder, get_server, update_server_with_folders,
}
use syno_plex_change_monitor.Web.Auth.{require_api_auth, passed}
use syno_plex_change_monitor.Web.Api.{Service, failed, store_of}
use syno_plex_change_monitor.Web.Api.Servers
use syno_plex_change_monitor.Web.Api.Folders
use syno_plex_change_monitor.Web.Api.Calls
use syno_plex_change_monitor.Web.Api.Calls.{TurnedAway, Call-TurnedAway, code}
use syno_plex_change_monitor.Web.Api.Ownership.{other_server_folder}
use syno_plex_change_monitor.Web.Api.Conflict.{conflict_lem}
use syno_plex_change_monitor.Web.Browse.{absolute, list_directory}
use syno_plex_change_monitor.Web.Browse.Listing.{Scanned, IsListed, list_directory_lem}
use syno_plex_change_monitor.Web.ReadModels.{server_read, server_read-secret}
use syno_plex_change_monitor.Web.Writes.{
  secret_satisfied, update_satisfied, refused, name_conflict, apply_server_update_with_folders,
}
use syno_plex_change_monitor.Tests.Creating.{next_id, next_id-unused, sealed, input, plex_row}
use syno_plex_change_monitor.Tests.Running.{machine, working}
use syno_plex_change_monitor.Tests.Signing.{site, fresh_site}
use syno_plex_change_monitor.Tests.Storing.{tables, tv_row, same_case}

abbrev locked_out : Service (List Text)
locked_out = record { site = fresh_site; engine = working }

not_passed : require_api_auth fresh_site ≢ passed
unfolding require_api_auth
not_passed = λ h. ground arith

Call-TurnedAway_example :
    let out = Servers.delete_one (machine 3) next_id sealed 1 locked_out in
    TurnedAway (machine 3) next_id sealed locked_out (code out.0) out.1
Call-TurnedAway_example =
    Call-TurnedAway (machine 3) next_id sealed locked_out _ _ (Calls.delete_server 1 locked_out)
      not_passed

abbrev serving : Service (List Text)
serving = record {
  site = record site { tables = record tables { settings = [] } };
  engine = working;
}

abbrev tv_folder : LoadedFolder
tv_folder = load tables tv_row

abbrev no_change : FolderUpdate
no_change = record { path = unset; library_id = unset; enabled = unset; extensions = unset }

other_server_folder_example :
    (Folders.get_one (machine 3) next_id sealed 2 7 serving ≡ (failed 404, serving))
    × (Folders.update_one (machine 3) next_id sealed 2 7 no_change serving ≡ (failed 404, serving))
    × (Folders.delete_one (machine 3) next_id sealed 2 7 serving ≡ (failed 404, serving))
unfolding require_api_auth get_folder
other_server_folder_example =
    other_server_folder (machine 3) next_id sealed 2 7 tv_folder no_change serving refl refl
      (λ h. ground arith)

-- Two servers, of which the second is to take the name of the first.
abbrev two_servers : Service (List Text)
two_servers = record serving {
  site = record serving.site {
    tables = record empty {
      servers = plex_row ∷ server_row sealed 2 (record input { name = codes "emby" }) ∷ [];
    };
  };
}

abbrev rename : ServerUpdate
rename = record {
  name = sent (some (codes "plex"));
  type = unset;
  base_url = unset;
  verify_tls = unset;
  timeout_seconds = unset;
  secret = unset;
  scan_mode = unset;
  debounce_mode = unset;
  debounce_window_seconds = unset;
  retry_attempts = unset;
  enabled = unset;
  webhook_method = unset;
  webhook_headers_json = unset;
  webhook_body_template = unset;
  webhook_payload_preset = unset;
  event_types = unset;
}

conflict_lem_example :
    (Servers.create_one (machine 3) next_id sealed input two_servers ≡ (failed 409, two_servers))
    × (Servers.update_one (machine 3) next_id sealed 2 rename two_servers
        ≡ (failed 500, two_servers))
    × (apply_server_update_with_folders
          (machine 3)
          next_id
          sealed
          2
          rename
          []
          (store_of two_servers)
        ≡ (refused name_conflict, store_of two_servers))
unfolding require_api_auth secret_satisfied get_server update_satisfied server_row
conflict_lem_example =
    conflict_lem (machine 3) next_id sealed next_id-unused input 2 1 rename []
      (server_row sealed 2 (record input { name = codes "emby" })) plex_row two_servers refl refl
      refl (omega arith) refl refl refl refl

server_read-secret_example :
    server_read (record plex_row { secret_encrypted = some (codes "x") }) []
    ≡ server_read plex_row []
unfolding server_row
server_read-secret_example = server_read-secret plex_row [] (sealed (codes "t")) refl (codes "x")

abbrev scan : Text → Option (List Scanned)
scan path =
    some ((codes "tv", some true) ∷ (codes "@eaDir", some true) ∷ (codes "a.mkv", some false) ∷ [])

list_directory_lem_example :
    IsListed
      (codes "/")
      scan
      same_case
      (absolute (codes "/") (codes "/data"))
      (scan (absolute (codes "/") (codes "/data")))
      (list_directory (codes "/") scan same_case (codes "/data"))
list_directory_lem_example = list_directory_lem (codes "/") scan same_case (codes "/data")

-- The form of the first server, with another secret.
abbrev form : ServerForm
form = record {
  name = codes "plex";
  type = codes "plex";
  base_url = codes "http://plex";
  secret = codes "n";
  clear_secret = false;
  scan_mode = codes "targeted";
  debounce_mode = codes "trailing";
  debounce_window_seconds = 30;
  retry_attempts = 3;
  timeout_seconds = 10000;
  verify_tls = true;
  enabled = true;
  webhook_method = [];
  webhook_headers_json = [];
  webhook_body_template = [];
  webhook_payload_preset = codes "custom";
  fields = (codes "event_types", codes "created") ∷ (codes "event_types", codes "moved_to") ∷ [];
}

abbrev form_update : ServerUpdate
form_update = record {
  name = sent (some (codes "plex"));
  type = unset;
  base_url = sent (some (codes "http://plex"));
  verify_tls = sent (some true);
  timeout_seconds = sent (some 10000);
  secret = sent (some (codes "n"));
  scan_mode = sent (some targeted);
  debounce_mode = sent (some trailing);
  debounce_window_seconds = sent (some 30);
  retry_attempts = sent (some 3);
  enabled = sent (some true);
  webhook_method = sent none;
  webhook_headers_json = sent none;
  webhook_body_template = sent none;
  webhook_payload_preset = sent (some custom);
  event_types = sent (some (created ∷ moved_to ∷ []));
}

abbrev saved_row : Server
saved_row = record plex_row { secret_encrypted = some (sealed (codes "n")) }

update_form_lem_example :
    (saved_row.id ≡ plex_row.id)
    × (saved_row.type ≡ plex_row.type)
    × SecretAfter sealed form plex_row.secret_encrypted saved_row.secret_encrypted
unfolding update_input find_server update_server_with_folders server_row
update_form_lem_example =
    update_form_lem next_id sealed form form_update [] 1 (record empty { servers = plex_row ∷ [] })
      plex_row (saved_row, record empty { servers = saved_row ∷ [] }) refl refl refl

abbrev shown_server : ServerRead
shown_server = record {
  id = 1;
  name = codes "plex";
  type = plex;
  base_url = codes "http://plex";
  verify_tls = true;
  timeout_seconds = 10000;
  has_secret = true;
  scan_mode = targeted;
  debounce_mode = trailing;
  debounce_window_seconds = 30;
  retry_attempts = 3;
  enabled = true;
  supported_scan_modes = library ∷ targeted ∷ [];
  webhook_method = none;
  webhook_headers_json = none;
  webhook_body_template = none;
  webhook_payload_preset = custom;
  event_types = created ∷ moved_to ∷ [];
  folders = [];
}

clearable_lem_example : (offers_clear (detail_context plex_row shown_server) ≡ true) ↔ (
    (plex_row.secret_encrypted ≢ none)
    × (update_satisfied (record rename { secret = sent none }) plex_row ≡ true))
unfolding server_read server_row
clearable_lem_example =
    clearable_lem plex_row [] shown_server (record rename { secret = sent none }) refl refl refl
