-- ===== src/Web/Writes.antt =====
-- mediascanmonitor/web/writes.py and rebuild.py: the writes behind the forms and the JSON API. A
-- core takes and gives the tables and the engine; what it raises is a value. No write of another
-- request comes between the two sessions of one core.
pub mod Steps
pub mod Secrets
pub mod Gate
pub mod Refusals
use syno_plex_change_monitor.Base.{
  ℕ, Bool, true, false, not, ◌&&◌, Option, none, some, List, [], ◌∷◌, if◌then◌else◌,
}
use syno_plex_change_monitor.Base.Text.{Text}
use syno_plex_change_monitor.Models.{Server, Folder, ServerType}
use syno_plex_change_monitor.Db.Schemas.{
  ServerCreate, ServerUpdate, FolderCreate, FolderUpdate, Change, unset, sent,
}
use syno_plex_change_monitor.Db.Tables.{Tables, Result, ok, err, key_error, integrity_error}
use syno_plex_change_monitor.Db.Repo.{
  LoadedFolder, get_server, get_folder, create_server, create_server_with_folders, update_server,
  update_server_with_folders, delete_server, create_folder, delete_folder,
}
use syno_plex_change_monitor.Db.Repo.Extensions.{update_folder}
use syno_plex_change_monitor.Engine.{Engine, EngineError, runtime_error, build_error, Machine}
use syno_plex_change_monitor.Engine.Control.{rebuild}
use syno_plex_change_monitor.Web.TypeSpecs.{server_type_specs}

-- The `HTTPException`s 422 and 409, `KeyError`, `IntegrityError`, `AssertionError`, and what the
-- rebuild raised after the write.
pub data WriteError : Type 0 where
  secret_required name_conflict missing integrity assertion rebuild_failed : WriteError

pub data Written {ℓ} (A : Type ℓ) : Type ℓ where
  written : A → Written A
  refused : WriteError → Written A

-- What a write changes.
pub record Store (W : Type 0) : Type 0 where
  pub tables : Tables
  pub engine : Engine W

-- `data.secret is not None and data.secret != ""`, and `bool(dumped["secret"])`
abbrev pub is_present : Option Text → Bool
is_present none = false
is_present (some []) = false
is_present (some (c ∷ secret)) = true

abbrev pub is_stored : Option Text → Bool
is_stored none = false
is_stored (some token) = true

-- `_require_secret_or_422`: whether it lets the write through.
unfoldable pub secret_satisfied : ServerType → Bool → Bool
secret_satisfied type has_secret = not ((server_type_specs type).requires_secret && not has_secret)

abbrev pub resulting_type : Change ServerType → ServerType → ServerType
resulting_type unset old = old
resulting_type (sent none) old = old
resulting_type (sent (some type)) old = type

abbrev pub resulting_has_secret : Change Text → Option Text → Bool
resulting_has_secret unset stored = is_stored stored
resulting_has_secret (sent secret) stored = is_present secret

-- `_require_update_secret`
unfoldable pub update_satisfied : ServerUpdate → Server → Bool
unfolding secret_satisfied
update_satisfied update existing =
    secret_satisfied (resulting_type update.type existing.type)
      (resulting_has_secret update.secret existing.secret_encrypted)

module _ {W : Type 0} (m : Machine W) where
  -- `except RuntimeError`: the write stands.
  abbrev tolerated : {A : Type 0} → A → Option EngineError → Written A
  tolerated answer none = written answer
  tolerated answer (some runtime_error) = written answer
  tolerated answer (some build_error) = refused rebuild_failed

  -- `rebuild_engine`, and then the answer.
  unfoldable pub rebuild_engine : {A : Type 0} → A → Tables → Engine W → Written A × Store W
  unfolding rebuild
  rebuild_engine answer t engine =
      let (raised, next) = rebuild m t engine in
      (tolerated answer raised, record { tables = t; engine = next })

module _ {W : Type 0} (m : Machine W) (fresh : List ℕ → ℕ) (encrypt : Text → Text) where
  -- `except IntegrityError`, and a core that has no such clause.
  abbrev translated : Result (Server × Tables) → Store W → Written Server × Store W
  translated (ok (server, t)) s = rebuild_engine m server t s.engine
  translated (err integrity_error) s = (refused name_conflict, s)
  translated (err key_error) s = (refused missing, s)

  abbrev untranslated : {A : Type 0} → Result (A × Tables) → Store W → Written A × Store W
  untranslated (ok (answer, t)) s = rebuild_engine m answer t s.engine
  untranslated (err integrity_error) s = (refused integrity, s)
  untranslated (err key_error) s = (refused missing, s)

  unfoldable pub apply_server_create : ServerCreate → Store W → Written Server × Store W
  unfolding secret_satisfied create_server rebuild_engine
  apply_server_create input s =
      if secret_satisfied input.type (is_present input.secret)
      then translated (create_server fresh encrypt input s.tables) s
      else (refused secret_required, s)

  unfoldable pub apply_server_create_with_folders :
      ServerCreate → List FolderCreate → Store W → Written Server × Store W
  unfolding secret_satisfied create_server_with_folders rebuild_engine
  apply_server_create_with_folders input folders s =
      if secret_satisfied input.type (is_present input.secret)
      then translated (create_server_with_folders fresh encrypt input folders s.tables) s
      else (refused secret_required, s)

  abbrev update_existing : Option Server → ℕ → ServerUpdate → Store W → Written Server × Store W
  update_existing none id update s = (refused missing, s)
  update_existing (some existing) id update s =
      if update_satisfied update existing
      then untranslated (update_server fresh encrypt id update s.tables) s
      else (refused secret_required, s)

  unfoldable pub apply_server_update : ℕ → ServerUpdate → Store W → Written Server × Store W
  unfolding get_server update_satisfied update_server rebuild_engine
  apply_server_update id update s = update_existing (get_server id s.tables) id update s

  abbrev update_existing_with_folders :
      Option Server → ℕ → ServerUpdate → List FolderCreate → Store W → Written Server × Store W
  update_existing_with_folders none id update folders s = (refused missing, s)
  update_existing_with_folders (some existing) id update folders s =
      if update_satisfied update existing
      then translated (update_server_with_folders fresh encrypt id update folders s.tables) s
      else (refused secret_required, s)

  unfoldable pub apply_server_update_with_folders :
      ℕ → ServerUpdate → List FolderCreate → Store W → Written Server × Store W
  unfolding get_server update_satisfied update_server_with_folders rebuild_engine
  apply_server_update_with_folders id update folders s =
      update_existing_with_folders (get_server id s.tables) id update folders s

  unfoldable pub apply_server_delete : ℕ → Store W → Written (Unit {0}) × Store W
  unfolding delete_server rebuild_engine
  apply_server_delete id s = rebuild_engine m tt (delete_server id s.tables) s.engine

  -- The folder is read again after the rebuild, with its filetypes.
  abbrev read_again : Written ℕ × Store W → Written LoadedFolder × Store W
  read_again (refused e, s) = (refused e, s)
  read_again (written id, s) =
      (elim (get_folder id s.tables) [ none ↦ refused assertion | some folder ↦ written folder ], s)

  abbrev with_id : Result (Folder × Tables) → Result (ℕ × Tables)
  with_id (ok (folder, t)) = ok (folder.id, t)
  with_id (err e) = err e

  unfoldable pub apply_folder_create : ℕ → FolderCreate → Store W → Written LoadedFolder × Store W
  unfolding create_folder rebuild_engine get_folder
  apply_folder_create server_id input s =
      read_again (untranslated (with_id (create_folder fresh server_id input s.tables)) s)

  unfoldable pub apply_folder_update : ℕ → FolderUpdate → Store W → Written LoadedFolder × Store W
  unfolding update_folder rebuild_engine
  apply_folder_update id update s = untranslated (update_folder fresh m.lower id update s.tables) s

  unfoldable pub apply_folder_delete : ℕ → Store W → Written (Unit {0}) × Store W
  unfolding delete_folder rebuild_engine
  apply_folder_delete id s = rebuild_engine m tt (delete_folder id s.tables) s.engine
