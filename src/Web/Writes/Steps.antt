-- ===== src/Web/Writes/Steps.antt =====
-- The writes as steps of one store.
use syno_plex_change_monitor.Base.{ℕ, Option, none, some, List}
use syno_plex_change_monitor.Base.Text.{Text}
use syno_plex_change_monitor.Db.Schemas.{ServerCreate, ServerUpdate, FolderCreate, FolderUpdate}
use syno_plex_change_monitor.Db.Tables.{empty}
use syno_plex_change_monitor.Engine.{Engine, Machine}
use syno_plex_change_monitor.Web.Writes.{
  WriteError, Written, written, refused, Store, apply_server_create,
  apply_server_create_with_folders, apply_server_update, apply_server_update_with_folders,
  apply_server_delete, apply_folder_create, apply_folder_update, apply_folder_delete,
}

abbrev pub refusal : {A : Type 0} → Written A → Option WriteError
refusal (written answer) = none
refusal (refused e) = some e

module _ {W : Type 0} (m : Machine W) (fresh : List ℕ → ℕ) (encrypt : Text → Text) where
  -- One call of a core: the store before it, its refusal, and the store after it.
  pub data Write : Store W → Option WriteError → Store W → Type 0 where
    server_create :
        (input : ServerCreate) (s : Store W)
        → Write s
            (refusal (apply_server_create m fresh encrypt input s).0)
            (apply_server_create m fresh encrypt input s).1
    server_create_with_folders :
        (input : ServerCreate) (folders : List FolderCreate) (s : Store W)
        → Write s
            (refusal (apply_server_create_with_folders m fresh encrypt input folders s).0)
            (apply_server_create_with_folders m fresh encrypt input folders s).1
    server_update :
        (id : ℕ) (update : ServerUpdate) (s : Store W)
        → Write s
            (refusal (apply_server_update m fresh encrypt id update s).0)
            (apply_server_update m fresh encrypt id update s).1
    server_update_with_folders :
        (id : ℕ) (update : ServerUpdate) (folders : List FolderCreate) (s : Store W)
        → Write s
            (refusal (apply_server_update_with_folders m fresh encrypt id update folders s).0)
            (apply_server_update_with_folders m fresh encrypt id update folders s).1
    server_delete :
        (id : ℕ) (s : Store W)
        → Write s
            (refusal (apply_server_delete m fresh encrypt id s).0)
            (apply_server_delete m fresh encrypt id s).1
    folder_create :
        (server_id : ℕ) (input : FolderCreate) (s : Store W)
        → Write s
            (refusal (apply_folder_create m fresh encrypt server_id input s).0)
            (apply_folder_create m fresh encrypt server_id input s).1
    folder_update :
        (id : ℕ) (update : FolderUpdate) (s : Store W)
        → Write s
            (refusal (apply_folder_update m fresh encrypt id update s).0)
            (apply_folder_update m fresh encrypt id update s).1
    folder_delete :
        (id : ℕ) (s : Store W)
        → Write s
            (refusal (apply_folder_delete m fresh encrypt id s).0)
            (apply_folder_delete m fresh encrypt id s).1

  -- The stores that a sequence of writes leads to, from a new database.
  pub data Served (engine : Engine W) : Store W → Type 0 where
    new : Served engine (record { tables = empty; engine = engine })
    after :
        (s u : Store W) (e : Option WriteError) → Served engine s → Write s e u → Served engine u
