-- ===== src/Tests/Writing.antt =====
-- Runs of the writes.
use syno_plex_change_monitor.Base.{◌≡◌, refl, some, List, [], ◌∷◌, nat_eq, list_eq}
use syno_plex_change_monitor.Base.Text.{Text}
use syno_plex_change_monitor.Db.Tables.{Tables, empty, ok}
use syno_plex_change_monitor.Db.Tables.Consistent.{IsConsistent}
use syno_plex_change_monitor.Db.Repo.{create_server}
use syno_plex_change_monitor.Db.Repo.Reach.{
  new, after, server_created, server_deleted, Reachable-IsConsistent,
}
use syno_plex_change_monitor.Db.Repo.{delete_server}
use syno_plex_change_monitor.Web.Writes.{
  Store, written, refused, secret_required, apply_server_create,
}
use syno_plex_change_monitor.Web.Writes.Steps
use syno_plex_change_monitor.Web.Writes.Steps.{refusal, Write, server_create, Served}
use syno_plex_change_monitor.Web.Writes.Secrets.{HasSecrets}
use syno_plex_change_monitor.Web.Writes.Gate.{Served-Sound}
use syno_plex_change_monitor.Web.Writes.Refusals.{IsAtomic, Write-IsAtomic}
use syno_plex_change_monitor.Tests.Creating.{next_id, next_id-unused, sealed, input, plex_row}
use syno_plex_change_monitor.Tests.Running.{machine, working}
use syno_plex_change_monitor.Tests.Storing.{same_case}

abbrev one_server : Tables
one_server = record empty { servers = plex_row ∷ [] }

created_one : create_server next_id sealed input empty ≡ ok (plex_row, one_server)
unfolding create_server
created_one = refl

Reachable-IsConsistent_example : IsConsistent (delete_server 7 one_server)
Reachable-IsConsistent_example =
    Reachable-IsConsistent next_id next_id-unused sealed same_case (delete_server 7 one_server) (
      after one_server (delete_server 7 one_server)
        (after empty one_server new (server_created input empty one_server plex_row created_one))
        (server_deleted 7 one_server))

abbrev first_store : Store (List Text)
first_store = record { tables = empty; engine = working }

Served-Sound_example :
    let next = (apply_server_create (machine 3) next_id sealed input first_store).1 in
    IsConsistent next.tables × HasSecrets next.tables
Served-Sound_example =
    let out = apply_server_create (machine 3) next_id sealed input first_store in
    Served-Sound (machine 3) next_id next_id-unused sealed working out.1
      (Steps.after first_store out.1 (refusal out.0) Steps.new (server_create input first_store))

apply_server_create_run :
    ((apply_server_create (machine 3) next_id sealed input first_store).0 ≡ written plex_row)
    × (apply_server_create
          (machine 3)
          next_id
          sealed
          (record input { secret = some [] })
          first_store
        ≡ (refused secret_required, first_store))
unfolding apply_server_create
apply_server_create_run = (refl, refl)

Write-IsAtomic_example :
    let out = apply_server_create (machine 3) next_id sealed input first_store in
    IsAtomic (machine 3) first_store (refusal out.0) out.1
Write-IsAtomic_example =
    Write-IsAtomic (machine 3) next_id sealed first_store _ _ (server_create input first_store)
