-- ===== src/Db/Repo/Laws.antt =====
-- What the creation of a server leaves in the tables.
use syno_plex_change_monitor.Base.{
  ℕ, ◌≡◌, refl, ap, true, false, Option, none, some, List, [], ◌∷◌, ◌++◌, nat_eq, list_eq, contains,
  arith, Bool-cases, inl, inr,
}
use mathlib.Core.Path.{subst}
use syno_plex_change_monitor.Base.Text.{Text}
use syno_plex_change_monitor.Models.{Server}
use syno_plex_change_monitor.Models.EventTypes.{parse_event_types, parse-serialize}
use syno_plex_change_monitor.Db.Schemas.{ServerCreate}
use syno_plex_change_monitor.Db.Tables.{
  Tables, Result, ok, err, integrity_error, name_taken, server_ids,
}
use syno_plex_change_monitor.Db.Repo.{create_server, server_row, resolve_secret}

resolve_secret-encrypt :
    (encrypt : Text → Text) (decrypt : Text → Option Text)
    → ((secret : Text) → decrypt (encrypt secret) ≡ some secret)
    → (id : ℕ) (input : ServerCreate) (secret : Option Text) → input.secret ≡ secret
    → resolve_secret decrypt (server_row encrypt id input) ≡ some input.secret
unfolding resolve_secret server_row
resolve_secret-encrypt encrypt decrypt opens id input none e = rw e refl
resolve_secret-encrypt encrypt decrypt opens id input (some secret) e = rw (e, opens secret) refl

name_taken-append :
    (id : ℕ) (servers : List Server) (row : Server)
    → contains (server_ids (servers ++ (row ∷ []))) id ≡ false
    → name_taken id row.name (servers ++ (row ∷ [])) ≡ true
unfolding name_taken
name_taken-append id [] row h = ground arith
name_taken-append id (s ∷ servers) row h =
    let rest = name_taken-append id servers row (ground arith) in ground arith

abbrev created_or : Server × Tables → Result (Server × Tables) → Server × Tables
created_or p (ok q) = q
created_or p (err e) = p

module _ (fresh : List ℕ → ℕ) (encrypt : Text → Text) (decrypt : Text → Option Text) where
  created_row : ServerCreate → Tables → Server
  created_row input t = server_row encrypt (fresh (server_ids t.servers)) input

  created : ServerCreate → Tables → Server × Tables
  created input t =
      (created_row input t, record t { servers = t.servers ++ (created_row input t ∷ []) })

  create_server-eq :
      (input : ServerCreate) (t : Tables) (p : Server × Tables)
      → create_server fresh encrypt input t ≡ ok p
      → created input t ≡ p
  unfolding create_server created created_row
  create_server-eq input t p h =
      elim (Bool-cases (name_taken (fresh (server_ids t.servers)) input.name t.servers)) [
        | inl taken ↦ absurd (ground (arith, rw taken at h))
        | inr free ↦ ap (created_or p) (rw free at h)
      ]

  create_server-again :
      ((ids : List ℕ) → contains ids (fresh ids) ≡ false)
      → (input other : ServerCreate) (t : Tables) → other.name ≡ input.name
      → create_server fresh encrypt other (created input t).1 ≡ err integrity_error
  unfolding create_server created created_row server_row
  create_server-again unused input other t same =
      rw
        (
          same,
          name_taken-append (fresh (server_ids (t.servers ++ (created_row input t ∷ [])))) t.servers
              (created_row input t) (unused _),
        )
        refl

  -- Where a new row gets an id that is not in use, and decryption undoes encryption: a server that
  -- was created has the secret and the event types that were given when they are read back, and any
  -- further server of the same name, whatever else is given, is refused.
  pub create_server_lem :
      ((ids : List ℕ) → contains ids (fresh ids) ≡ false)
      → ((secret : Text) → decrypt (encrypt secret) ≡ some secret)
      → (input other : ServerCreate) (t next : Tables) (row : Server)
      → create_server fresh encrypt input t ≡ ok (row, next)
      → other.name ≡ input.name
      → (resolve_secret decrypt row ≡ some input.secret)
        × (parse_event_types row.event_types ≡ some input.event_types)
        × (create_server fresh encrypt other next ≡ err integrity_error)
  create_server_lem unused opens input other t next row h same =
      subst
        (λ (p : Server × Tables).
          (resolve_secret decrypt p.0 ≡ some input.secret)
          × (parse_event_types p.0.event_types ≡ some input.event_types)
          × (create_server fresh encrypt other p.1 ≡ err integrity_error))
        (create_server-eq input t (row, next) h)
        (
          unfold created in
              unfold created_row in
              resolve_secret-encrypt encrypt decrypt opens (fresh (server_ids t.servers)) input
                input.secret refl,
          unfold created in
              unfold created_row in unfold server_row in parse-serialize input.event_types,
          create_server-again unused input other t same,
        )
