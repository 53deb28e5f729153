-- ===== src/Db/Repo.antt =====
-- mediascanmonitor/db/repo.py. Parameters: the id that SQLite gives to a new row, from the ids in
-- use, and the encryption of the `SecretBox`.
pub mod Extensions
pub mod Laws
pub mod Keys
pub mod ServerKeys
pub mod Reach
use syno_plex_change_monitor.Base.{
  ℕ, Bool, not, Option, none, some, List, [], ◌∷◌, ◌++◌, map, if◌then◌else◌, ◌==◌, nat_eq, list_eq,
}
use syno_plex_change_monitor.Base.Dict.{lookup, insert}
use syno_plex_change_monitor.Base.Lists.{filter}
use syno_plex_change_monitor.Base.Text.{Text}
use syno_plex_change_monitor.Models.{Server, Folder, FileType}
use syno_plex_change_monitor.Models.EventTypes.{serialize_event_types}
use syno_plex_change_monitor.Db.Schemas.{
  ServerCreate, ServerUpdate, FolderCreate, FolderUpdate, Change, unset, sent, normalize_extensions,
}
use syno_plex_change_monitor.Db.Tables.{
  Tables, Result, ok, err, key_error, integrity_error, ◌>>=◌, find_server, find_folder, name_taken,
  replace_server, replace_folder, server_ids, folder_ids, filetype_ids, folders_of, filetypes_of,
  remove_folders, remove_server,
}

-- A folder with its `filetypes` loaded.
pub record LoadedFolder : Type 0 where
  pub row : Folder
  pub filetypes : List FileType

abbrev pub load : Tables → Folder → LoadedFolder
load t row = record { row = row; filetypes = filetypes_of row.id t.filetypes }

-- `setattr` of a column that may not be null, and of one that may.
abbrev pub set_required {ℓ} : {A : Type ℓ} → Change A → A → Result A
set_required unset old = ok old
set_required (sent none) old = err integrity_error
set_required (sent (some new)) old = ok new

abbrev pub set_nullable {ℓ} : {A : Type ℓ} → Change A → Option A → Option A
set_nullable unset old = old
set_nullable (sent new) old = new

-- A field for which an explicit `None` means the same as leaving it out.
abbrev pub set_unless_none {ℓ κ} : {A : Type ℓ} {B : Type κ} → (A → B) → Change A → B → B
set_unless_none f (sent (some new)) old = f new
set_unless_none f change old = old

module _ (encrypt : Text → Text) where
  abbrev pub encrypt_option : Option Text → Option Text
  encrypt_option none = none
  encrypt_option (some secret) = some (encrypt secret)

  abbrev pub set_secret : Change Text → Option Text → Option Text
  set_secret unset old = old
  set_secret (sent secret) old = encrypt_option secret

  -- `Server(name=data.name, …)`, and the id of its row.
  unfoldable pub server_row : ℕ → ServerCreate → Server
  unfolding serialize_event_types
  server_row id data' = record {
    id = id;
    name = data'.name;
    type = data'.type;
    base_url = data'.base_url;
    verify_tls = data'.verify_tls;
    timeout_seconds = data'.timeout_seconds;
    secret_encrypted = encrypt_option data'.secret;
    scan_mode = data'.scan_mode;
    debounce_mode = data'.debounce_mode;
    debounce_window_seconds = data'.debounce_window_seconds;
    retry_attempts = data'.retry_attempts;
    enabled = data'.enabled;
    webhook_method = data'.webhook_method;
    webhook_headers_json = data'.webhook_headers_json;
    webhook_body_template = data'.webhook_body_template;
    webhook_payload_preset = data'.webhook_payload_preset;
    event_types = serialize_event_types data'.event_types;
  }

  -- The fields that were sent, and the constraints of the columns.
  unfoldable pub updated_row : ServerUpdate → Server → Result Server
  unfolding serialize_event_types
  updated_row data' old = do
    name ← set_required data'.name old.name
    type ← set_required data'.type old.type
    base_url ← set_required data'.base_url old.base_url
    verify_tls ← set_required data'.verify_tls old.verify_tls
    timeout_seconds ← set_required data'.timeout_seconds old.timeout_seconds
    scan_mode ← set_required data'.scan_mode old.scan_mode
    debounce_mode ← set_required data'.debounce_mode old.debounce_mode
    debounce_window_seconds ← set_required data'.debounce_window_seconds old.debounce_window_seconds
    retry_attempts ← set_required data'.retry_attempts old.retry_attempts
    enabled ← set_required data'.enabled old.enabled
    webhook_payload_preset ← set_required data'.webhook_payload_preset old.webhook_payload_preset
    ok (record {
      id = old.id;
      name = name;
      type = type;
      base_url = base_url;
      verify_tls = verify_tls;
      timeout_seconds = timeout_seconds;
      secret_encrypted = set_secret data'.secret old.secret_encrypted;
      scan_mode = scan_mode;
      debounce_mode = debounce_mode;
      debounce_window_seconds = debounce_window_seconds;
      retry_attempts = retry_attempts;
      enabled = enabled;
      webhook_method = set_nullable data'.webhook_method old.webhook_method;
      webhook_headers_json = set_nullable data'.webhook_headers_json old.webhook_headers_json;
      webhook_body_template = set_nullable data'.webhook_body_template old.webhook_body_template;
      webhook_payload_preset = webhook_payload_preset;
      event_types = set_unless_none serialize_event_types data'.event_types old.event_types;
    })

-- A row is stored if its name is free.
unfoldable pub commit_server : Server → Tables → Result (Server × Tables)
unfolding name_taken replace_server nat_eq list_eq
commit_server row t =
    if name_taken row.id row.name t.servers
    then err integrity_error
    else ok (row, record t { servers = replace_server row t.servers })

-- `repo.get_server`, `repo.list_servers`
unfoldable pub get_server : ℕ → Tables → Option Server
unfolding find_server nat_eq
get_server id t = find_server id t.servers

unfoldable pub list_servers : Bool → Tables → List Server
list_servers enabled_only t = if enabled_only then filter (λ s. s.enabled) t.servers else t.servers

unfoldable pub list_folders : ℕ → Tables → List LoadedFolder
unfolding nat_eq
list_folders server_id t = map (load t) (folders_of server_id t.folders)

unfoldable pub get_folder : ℕ → Tables → Option LoadedFolder
unfolding find_folder nat_eq
get_folder id t = elim (find_folder id t.folders) [ none ↦ none | some row ↦ some (load t row) ]

unfoldable pub delete_server : ℕ → Tables → Tables
unfolding find_server remove_server nat_eq
delete_server id t = elim (find_server id t.servers) [
  | none ↦ t
  | some row ↦ remove_server row.id t
]

unfoldable pub delete_folder : ℕ → Tables → Tables
unfolding find_folder remove_folders nat_eq
delete_folder id t = elim (find_folder id t.folders) [
  | none ↦ t
  | some row ↦ remove_folders (row.id ∷ []) t
]

-- `repo.get_setting`, `repo.set_setting`
unfoldable pub get_setting : Text → Tables → Option Text
unfolding lookup list_eq nat_eq
get_setting key t = lookup key t.settings

unfoldable pub set_setting : Text → Text → Tables → Tables
unfolding insert list_eq nat_eq
set_setting key value t = record t { settings = insert key value t.settings }

module _ (fresh : List ℕ → ℕ) where
  -- `folder.filetypes.append(FileType(extension=ext))` for each extension, and the flush.
  unfoldable pub add_filetypes : ℕ → List Text → List FileType → List FileType
  add_filetypes folder_id [] filetypes = filetypes
  add_filetypes folder_id (ext ∷ extensions) filetypes = add_filetypes folder_id extensions (
      filetypes
      ++ (record { id = fresh (filetype_ids filetypes); folder_id = folder_id; extension = ext }
          ∷ []))

  -- A new folder row with its filetypes.
  unfoldable pub add_folder : ℕ → FolderCreate → Tables → Folder × Tables
  unfolding add_filetypes
  add_folder server_id data' t =
      let row : Folder = record {
        id = fresh (folder_ids t.folders);
        server_id = server_id;
        path = data'.path;
        library_id = data'.library_id;
        library_name = data'.library_name;
        enabled = data'.enabled;
      } in
      (
        row,
        record t {
          folders = t.folders ++ (row ∷ []);
          filetypes = add_filetypes row.id data'.extensions t.filetypes;
        },
      )

  unfoldable pub add_folders : ℕ → List FolderCreate → Tables → Tables
  unfolding add_folder
  add_folders server_id [] t = t
  add_folders server_id (data' ∷ folders) t =
      add_folders server_id folders (add_folder server_id data' t).1

  -- `_set_server_folders`. The session inserts the new rows before it deletes the old ones.
  unfoldable pub set_server_folders : ℕ → List FolderCreate → Tables → Tables
  unfolding add_folders remove_folders nat_eq
  set_server_folders server_id folders t =
      remove_folders (folder_ids (folders_of server_id t.folders)) (add_folders server_id folders t)

  -- The foreign key of a new folder.
  unfoldable pub create_folder : ℕ → FolderCreate → Tables → Result (Folder × Tables)
  unfolding find_server add_folder nat_eq
  create_folder server_id data' t = elim (find_server server_id t.servers) [
    | none ↦ err integrity_error
    | some _ ↦ ok (add_folder server_id data' t)
  ]

  module _ (encrypt : Text → Text) where
    unfoldable pub create_server : ServerCreate → Tables → Result (Server × Tables)
    unfolding server_row name_taken nat_eq list_eq
    create_server data' t =
        let row = server_row encrypt (fresh (server_ids t.servers)) data' in
        if name_taken row.id row.name t.servers
        then err integrity_error
        else ok (row, record t { servers = t.servers ++ (row ∷ []) })

    unfoldable pub create_server_with_folders :
        ServerCreate → List FolderCreate → Tables → Result (Server × Tables)
    unfolding create_server set_server_folders
    create_server_with_folders data' folders t = do
      created ← create_server data' t
      ok (created.0, set_server_folders created.0.id folders created.1)

    unfoldable pub update_server : ℕ → ServerUpdate → Tables → Result (Server × Tables)
    unfolding find_server updated_row commit_server nat_eq
    update_server id data' t = elim (find_server id t.servers) [
      | none ↦ err key_error
      | some old ↦ updated_row encrypt data' old >>= λ row. commit_server row t
    ]

    unfoldable pub update_server_with_folders :
        ℕ → ServerUpdate → List FolderCreate → Tables → Result (Server × Tables)
    unfolding update_server set_server_folders
    update_server_with_folders id data' folders t = do
      updated ← update_server id data' t
      ok (updated.0, set_server_folders updated.0.id folders updated.1)

-- `repo.resolve_secret`; `none` of `decrypt` stands for its `SecretDecryptError`.
unfoldable pub resolve_secret : (Text → Option Text) → Server → Option (Option Text)
resolve_secret decrypt server = elim server.secret_encrypted [
  | none ↦ some none
  | some token ↦ elim (decrypt token) [ none ↦ none | some secret ↦ some (some secret) ]
]
