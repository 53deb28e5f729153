-- ===== src/Db/Repo/Extensions.antt =====
-- The methods of mediascanmonitor/db/repo.py that replace the filetypes of a folder.
use syno_plex_change_monitor.Db.Repo.{LoadedFolder, add_filetypes, load, set_nullable, set_required}
use syno_plex_change_monitor.Base.{
  ℕ, not, contains, Option, none, some, List, ◌==◌, nat_eq, list_eq,
}
use syno_plex_change_monitor.Base.Lists.{filter}
use syno_plex_change_monitor.Base.Text.{Text}
use syno_plex_change_monitor.Models.{Folder, FileType}
use syno_plex_change_monitor.Db.Schemas.{FolderUpdate, Change, sent, normalize_extensions}
use syno_plex_change_monitor.Db.Tables.{
  Tables, Result, ok, err, key_error, ◌>>=◌, find_folder, replace_folder, filetypes_of,
  filetype_ids,
}

module _ (fresh : List ℕ → ℕ) where
  module _ (lower : Text → Text) where
    -- `set_filetypes`: the old filetypes are deleted and flushed, and the new ones added, normalized
    -- once more.
    unfoldable pub replace_filetypes : ℕ → List Text → Tables → Tables
    unfolding add_filetypes normalize_extensions nat_eq
    replace_filetypes folder_id extensions t = record t {
      filetypes =
          add_filetypes fresh folder_id (normalize_extensions lower extensions)
            (filter (λ x. not (x.folder_id == folder_id)) t.filetypes);
    }

    -- `update_folder`: the one flush of the session inserts the new filetypes before it deletes the
    -- old ones, so that the new ids are none of theirs.
    unfoldable pub renew_filetypes : ℕ → List Text → Tables → Tables
    unfolding add_filetypes normalize_extensions nat_eq
    renew_filetypes folder_id extensions t =
        let old = filetype_ids (filetypes_of folder_id t.filetypes) in
        record t {
          filetypes =
              filter (λ x. not (contains old x.id))
                (add_filetypes fresh folder_id (normalize_extensions lower extensions) t.filetypes);
        }

    abbrev pub set_extensions : ℕ → Change (List Text) → Tables → Tables
    set_extensions folder_id (sent (some extensions)) t = renew_filetypes folder_id extensions t
    set_extensions folder_id change t = t

    abbrev pub update_found : FolderUpdate → Tables → Option Folder → Result (LoadedFolder × Tables)
    update_found update t none = err key_error
    update_found update t (some old) = do
      path ← set_required update.path old.path
      enabled ← set_required update.enabled old.enabled
      let row : Folder = record old {
        path = path;
        library_id = set_nullable update.library_id old.library_id;
        enabled = enabled;
      }
      let after =
          set_extensions row.id update.extensions
            (record t { folders = replace_folder row t.folders })
      ok (load after row, after)

    unfoldable pub update_folder : ℕ → FolderUpdate → Tables → Result (LoadedFolder × Tables)
    unfolding find_folder replace_folder renew_filetypes
    update_folder id update t = update_found update t (find_folder id t.folders)

    unfoldable pub set_filetypes : ℕ → List Text → Tables → Result (List FileType × Tables)
    unfolding find_folder replace_filetypes
    set_filetypes id extensions t = elim (find_folder id t.folders) [
      | none ↦ err key_error
      | some row ↦
          let after = replace_filetypes row.id extensions t in
          ok (filetypes_of row.id after.filetypes, after)
    ]
