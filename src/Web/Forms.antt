-- ===== src/Web/Forms.antt =====
-- How mediascanmonitor/web/pages.py reads its forms. A form is the list of its fields; `none`
-- stands for a `ValueError`. The digits of a field's name are those of ASCII.
pub mod Saving
use syno_plex_change_monitor.Base.{
  ℕ, ◌+◌, ◌-◌, Bool, true, false, not, ◌&&◌, ◌||◌, Option, none, some, List, [], ◌∷◌, ◌++◌, ◌==◌,
  nat_eq, list_eq, contains, leb, if◌then◌else◌,
}
use Prim.Native.Nat.{◌*◌}
use Prim.Native.String.{String}
use syno_plex_change_monitor.Base.Lists.{filter, drop}
use syno_plex_change_monitor.Base.Partial.{◌>>=◌}
use syno_plex_change_monitor.Base.Sort.{sorted}
use syno_plex_change_monitor.Base.Text.{Text, codes, is_space, strip, starts_with, decimal}
use syno_plex_change_monitor.Models.{
  ServerType, webhook, plex, emby, jellyfin, audiobookshelf, ScanMode, targeted, library,
  DebounceMode, off, trailing, WebhookPreset, custom, sonarr_radarr,
}
use syno_plex_change_monitor.Models.EventTypes.{parse_values}
use syno_plex_change_monitor.Db.Schemas.{
  ServerCreate, ServerUpdate, FolderCreate, Change, unset, sent, validate_folder,
}

abbrev pub Form : Type 0
Form = List (Text × Text)

-- `form.getlist(key)`
abbrev pub getlist : Text → Form → List Text
getlist key [] = []
getlist key ((k, v) ∷ form) = let rest = getlist key form in if k == key then v ∷ rest else rest

abbrev last_or : Text → List Text → Text
last_or value [] = value
last_or value (v ∷ values) = last_or v values

-- `form.get(key) or default`: the last of several values.
abbrev pub get_or : Text → Text → Form → Text
get_or key default form = elim (last_or [] (getlist key form)) [
  | [] ↦ default
  | c ∷ value ↦ c ∷ value
]

abbrev pub or_none : Text → Option Text
or_none [] = none
or_none (c ∷ value) = some (c ∷ value)

-- The parts between the characters of a kind.
unfoldable pub split_by : (ℕ → Bool) → Text → List Text
split_by p [] = [] ∷ []
split_by p (c ∷ s) =
    let rest = split_by p s in
    if p c then [] ∷ rest else elim rest [ [] ↦ (c ∷ []) ∷ [] | part ∷ parts ↦ (c ∷ part) ∷ parts ]

-- `_split_extensions`: a run of separators leaves empty parts, which are dropped.
unfoldable pub split_extensions : Text → List Text
unfolding split_by strip is_space list_eq nat_eq
split_extensions raw =
    filter (λ part. not (part == [])) (split_by (λ c. c == b',' || is_space c) (strip is_space raw))

abbrev is_digit : ℕ → Bool
is_digit c = leb b'0' c && leb c b'9'

-- `int` of the digits up to `-path`, with the number read so far and whether one was.
unfoldable pub index_from : ℕ → Bool → Text → Option ℕ
unfolding list_eq nat_eq
index_from n read [] = none
index_from n read (c ∷ s) =
    let more = index_from (10 * n + (c - b'0')) true s in
    if is_digit c then more else if read && c ∷ s == codes "-path" then some n else none

-- `re.fullmatch(r"folder-(\d+)-path", key)`
unfoldable pub row_index : Text → Option ℕ
unfolding index_from starts_with list_eq nat_eq
row_index key = if starts_with key (codes "folder-") then index_from 0 false (drop 7 key) else none

abbrev add_index : Option ℕ → List ℕ → List ℕ
add_index none indices = indices
add_index (some i) indices = if contains indices i then indices else i ∷ indices

unfoldable pub row_indices : Form → List ℕ
unfolding row_index nat_eq
row_indices [] = []
row_indices ((key, value) ∷ form) = add_index (row_index key) (row_indices form)

-- `folder-<i>-<name>`
abbrev pub row_key : ℕ → String → Text
row_key i name = codes "folder-" ++ decimal i ++ codes "-" ++ codes name

module _ (lower : Text → Text) where
  unfoldable pub folder_row : Form → ℕ → Option FolderCreate
  unfolding split_extensions strip is_space decimal validate_folder list_eq nat_eq
  folder_row form i = validate_folder lower (record {
    path = strip is_space (get_or (row_key i "path") [] form);
    library_id = or_none (strip is_space (get_or (row_key i "library_id") [] form));
    library_name = or_none (strip is_space (get_or (row_key i "library_name") [] form));
    extensions = split_extensions (get_or (row_key i "extensions") [] form);
    enabled = not (getlist (row_key i "enabled") form == []);
  })

  abbrev is_blank_row : Form → ℕ → Bool
  is_blank_row form i = strip is_space (get_or (row_key i "path") [] form) == []

  unfoldable pub folder_rows : Form → List ℕ → Option (List FolderCreate)
  unfolding folder_row
  folder_rows form [] = some []
  folder_rows form (i ∷ indices) = do
    folder ← folder_row form i
    rest ← folder_rows form indices
    some (folder ∷ rest)

  -- `_parse_folder_rows`: rows whose path is blank are left out.
  unfoldable pub parse_folder_rows : Form → Option (List FolderCreate)
  unfolding row_indices folder_rows sorted strip is_space decimal list_eq nat_eq
  parse_folder_rows form =
      folder_rows form (filter (λ i. not (is_blank_row form i)) (sorted leb (row_indices form)))

-- `ServerType(value)`, and so for the other enums; `none` stands for their `ValueError`.
unfoldable pub server_type_of : Text → Option ServerType
unfolding list_eq nat_eq
server_type_of v =
    if v == codes "webhook"
    then some webhook
    else if v == codes "plex"
    then some plex
    else if v == codes "emby"
    then some emby
    else if v == codes "jellyfin"
    then some jellyfin
    else if v == codes "audiobookshelf"
    then some audiobookshelf
    else none

unfoldable pub scan_mode_of : Text → Option ScanMode
unfolding list_eq nat_eq
scan_mode_of v =
    if v == codes "targeted"
    then some targeted
    else if v == codes "library"
    then some library
    else none

unfoldable pub debounce_mode_of : Text → Option DebounceMode
unfolding list_eq nat_eq
debounce_mode_of v =
    if v == codes "off" then some off else if v == codes "trailing" then some trailing else none

unfoldable pub webhook_preset_of : Text → Option WebhookPreset
unfolding list_eq nat_eq
webhook_preset_of v =
    if v == codes "custom"
    then some custom
    else if v == codes "sonarr_radarr"
    then some sonarr_radarr
    else none

-- The fields that FastAPI reads by their types, with its defaults filled in.
pub record ServerForm : Type 0 where
  pub name : Text
  pub type : Text
  pub base_url : Text
  pub secret : Text
  pub clear_secret : Bool
  pub scan_mode : Text
  pub debounce_mode : Text
  pub debounce_window_seconds : ℕ
  pub retry_attempts : ℕ
  pub timeout_seconds : ℕ
  pub verify_tls : Bool
  pub enabled : Bool
  pub webhook_method : Text
  pub webhook_headers_json : Text
  pub webhook_body_template : Text
  pub webhook_payload_preset : Text
  pub fields : Form

-- The `ServerCreate` of `POST /ui/servers/new`.
unfoldable pub create_input : ServerForm → Option ServerCreate
unfolding server_type_of scan_mode_of debounce_mode_of webhook_preset_of parse_values list_eq nat_eq
create_input f = do
  type ← server_type_of f.type
  scan_mode ← scan_mode_of f.scan_mode
  debounce_mode ← debounce_mode_of f.debounce_mode
  event_types ← parse_values (getlist (codes "event_types") f.fields)
  preset ← webhook_preset_of f.webhook_payload_preset
  some (record {
    name = f.name;
    type = type;
    base_url = f.base_url;
    verify_tls = f.verify_tls;
    timeout_seconds = f.timeout_seconds;
    secret = or_none f.secret;
    scan_mode = scan_mode;
    debounce_mode = debounce_mode;
    debounce_window_seconds = f.debounce_window_seconds;
    retry_attempts = f.retry_attempts;
    enabled = f.enabled;
    webhook_method = or_none f.webhook_method;
    webhook_headers_json = or_none f.webhook_headers_json;
    webhook_body_template = or_none f.webhook_body_template;
    webhook_payload_preset = preset;
    event_types = event_types;
  })

-- Cleared, replaced, or left out.
abbrev pub secret_change : Bool → Text → Change Text
secret_change true secret = sent none
secret_change false [] = unset
secret_change false (c ∷ secret) = sent (some (c ∷ secret))

-- The `ServerUpdate` of `POST /ui/servers/{server_id}/update`, which leaves the type out.
unfoldable pub update_input : ServerForm → Option ServerUpdate
unfolding scan_mode_of debounce_mode_of webhook_preset_of parse_values list_eq nat_eq
update_input f = do
  scan_mode ← scan_mode_of f.scan_mode
  debounce_mode ← debounce_mode_of f.debounce_mode
  event_types ← parse_values (getlist (codes "event_types") f.fields)
  preset ← webhook_preset_of f.webhook_payload_preset
  some (record {
    name = sent (some f.name);
    type = unset;
    base_url = sent (some f.base_url);
    verify_tls = sent (some f.verify_tls);
    timeout_seconds = sent (some f.timeout_seconds);
    secret = secret_change f.clear_secret f.secret;
    scan_mode = sent (some scan_mode);
    debounce_mode = sent (some debounce_mode);
    debounce_window_seconds = sent (some f.debounce_window_seconds);
    retry_attempts = sent (some f.retry_attempts);
    enabled = sent (some f.enabled);
    webhook_method = sent (or_none f.webhook_method);
    webhook_headers_json = sent (or_none f.webhook_headers_json);
    webhook_body_template = sent (or_none f.webhook_body_template);
    webhook_payload_preset = sent (some preset);
    event_types = sent (some event_types);
  })
