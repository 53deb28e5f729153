-- ===== src/Web/TypeSpecs.antt =====
-- `SERVER_TYPE_SPECS` of mediascanmonitor/web/api_schemas.py: the rules for each type of server.
use syno_plex_change_monitor.Base.{Bool, true, false}
use syno_plex_change_monitor.Base.Text.{Text, codes}
use syno_plex_change_monitor.Models.{ServerType, plex, emby, jellyfin, audiobookshelf, webhook}

pub record ServerTypeSpec : Type 0 where
  pub requires_secret : Bool
  pub requires_base_url : Bool
  pub is_webhook : Bool
  pub supports_secret : Bool
  pub base_url_label : Text
  pub base_url_placeholder : Text
  pub secret_hint : Text
  pub test_hint : Text

-- The defaults of the fields, with the three that have none.
abbrev spec_of : Bool → Bool → Bool → ServerTypeSpec
spec_of requires_secret requires_base_url is_webhook = record {
  requires_secret = requires_secret;
  requires_base_url = requires_base_url;
  is_webhook = is_webhook;
  supports_secret = true;
  base_url_label = codes "Base URL";
  base_url_placeholder = codes "http://host:port";
  secret_hint = codes "Access token / API key for this server.";
  test_hint = codes "Checks the URL and token work.";
}

abbrev pub server_type_specs : ServerType → ServerTypeSpec
server_type_specs plex = spec_of true true false
server_type_specs emby = spec_of true true false
server_type_specs jellyfin = spec_of true true false
server_type_specs audiobookshelf = spec_of true true false
server_type_specs webhook = record (spec_of false true true) {
  base_url_label = codes "Endpoint URL";
  base_url_placeholder = codes "https://host/path";
  secret_hint =
      codes
        "Optional, stored encrypted. Reference it in a header or the body template as {{ secret }} — e.g. Authorization: Bearer {{ secret }}.";
  test_hint = codes "Sends a test event to the endpoint.";
}
