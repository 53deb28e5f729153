-- ===== src/Tests/Creating.antt =====
-- Runs of the repository.
use syno_plex_change_monitor.Base.{
  ℕ, suc, ◌+◌, ◌<◌, ◌≡◌, refl, true, false, Option, none, some, List, [], ◌∷◌, nat_eq, list_eq,
  contains, arith, Bool-cases, inl, inr, ◌==◌, ==_iff,
}
use syno_plex_change_monitor.Base.Text.{Text, codes}
use syno_plex_change_monitor.Models.{
  webhook, Server, plex, targeted, trailing, custom, created, moved_to,
}
use syno_plex_change_monitor.Models.EventTypes.{parse_event_types}
use syno_plex_change_monitor.Db.Schemas.{ServerCreate}
use syno_plex_change_monitor.Db.Tables.{empty, err, integrity_error}
use syno_plex_change_monitor.Db.Repo.{create_server, server_row, resolve_secret}
use syno_plex_change_monitor.Db.Repo.Laws.{create_server_lem}

abbrev total : List ℕ → ℕ
total [] = 0
total (id ∷ ids) = id + total ids

abbrev pub next_id : List ℕ → ℕ
next_id ids = suc (total ids)

contains-above : (ids : List ℕ) (n : ℕ) → total ids < n → contains ids n ≡ false
contains-above [] n h = refl
contains-above (id ∷ ids) n h =
    let rest = contains-above ids n (omega arith) in
    elim (Bool-cases (n == id)) [
      | inl e ↦ let q = (==_iff n id).0 e in absurd (omega arith)
      | inr e ↦ ground arith
    ]

pub next_id-unused : (ids : List ℕ) → contains ids (next_id ids) ≡ false
next_id-unused ids = contains-above ids (next_id ids) (omega arith)

abbrev pub sealed : Text → Text
sealed secret = b'*' ∷ secret

abbrev pub opened : Text → Option Text
opened [] = none
opened (c ∷ secret) = some secret

abbrev pub input : ServerCreate
input = record {
  name = codes "plex";
  type = plex;
  base_url = codes "http://plex";
  verify_tls = true;
  timeout_seconds = 10000;
  secret = some (codes "t");
  scan_mode = targeted;
  debounce_mode = trailing;
  debounce_window_seconds = 30;
  retry_attempts = 3;
  enabled = true;
  webhook_method = none;
  webhook_headers_json = none;
  webhook_body_template = none;
  webhook_payload_preset = custom;
  event_types = created ∷ moved_to ∷ [];
}

abbrev pub plex_row : Server
plex_row = server_row sealed 1 input

-- Of the same name, and of another type.
abbrev webhook_input : ServerCreate
webhook_input = record input { type = webhook; secret = none }

create_server_lem_example :
    (resolve_secret opened plex_row ≡ some input.secret)
    × (parse_event_types plex_row.event_types ≡ some input.event_types)
    × (create_server next_id sealed webhook_input (record empty { servers = plex_row ∷ [] })
        ≡ err integrity_error)
unfolding create_server
create_server_lem_example =
    create_server_lem next_id sealed opened next_id-unused (λ secret. refl) input webhook_input
      empty (record empty { servers = plex_row ∷ [] }) plex_row refl refl
