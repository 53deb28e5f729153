-- ===== src/Web/Writes/Refusals.antt =====
-- What a write leaves: all of it with the engine rebuilt, or nothing of it.
use syno_plex_change_monitor.Base.{
  ℕ, [], ◌∷◌, ◌++◌, ◌==◌, nat_eq, ◌≡◌, refl, sym, Bool, true, false, Bool-cases, Option, none, some,
  List, inl, inr, arith, if◌then◌else◌,
}
use mathlib.Core.Path.{subst}
use syno_plex_change_monitor.Base.Text.{Text}
use syno_plex_change_monitor.Models.{Server, Folder}
use syno_plex_change_monitor.Db.Schemas.{ServerUpdate, FolderCreate}
use syno_plex_change_monitor.Db.Tables.{
  Tables, Result, ok, err, key_error, integrity_error, find_server, find_folder,
}
use syno_plex_change_monitor.Db.Repo.{
  LoadedFolder, get_server, get_folder, load, create_server, create_server_with_folders,
  update_server, update_server_with_folders, delete_server, create_folder, add_folder,
  delete_folder,
}
use syno_plex_change_monitor.Db.Repo.Extensions.{update_folder}
use syno_plex_change_monitor.Engine.{EngineError, runtime_error, build_error, Machine}
use syno_plex_change_monitor.Engine.Control.{rebuild}
use syno_plex_change_monitor.Web.Writes.{
  WriteError, rebuild_failed, assertion, update_satisfied, Written, written, refused, Store,
  secret_satisfied, is_present, rebuild_engine, tolerated, translated, untranslated,
  update_existing, update_existing_with_folders, read_again, with_id, apply_server_create,
  apply_server_create_with_folders, apply_server_update, apply_server_update_with_folders,
  apply_server_delete, apply_folder_create, apply_folder_update, apply_folder_delete,
}
use syno_plex_change_monitor.Web.Writes.Steps.{
  refusal, Write, server_create, server_create_with_folders, server_update,
  server_update_with_folders, server_delete, folder_create, folder_update, folder_delete,
}

abbrev either :
    {A : Type 0} {x y : A} (P : A → Type 0) (b : Bool) → P x → P y → P (if b then x else y)
either P true p q = p
either P false p q = q

find_folder-appended :
    (folders : List Folder) (row : Folder)
    → (found : Folder) × (find_folder row.id (folders ++ (row ∷ [])) ≡ some found)
unfolding find_folder
find_folder-appended [] row = (row, ground arith)
find_folder-appended (f ∷ folders) row = elim (Bool-cases (f.id == row.id)) [
  | inl e ↦ (f, rw e refl)
  | inr e ↦ rw e (find_folder-appended folders row)
]

-- The folder that was created is there when it is read again.
get_folder-add_folder :
    (fresh : List ℕ → ℕ) (server_id : ℕ) (input : FolderCreate) (t : Tables)
    → let (row, next) = add_folder fresh server_id input t in
      (folder : LoadedFolder) × (get_folder row.id next ≡ some folder)
unfolding get_folder add_folder
get_folder-add_folder fresh server_id input t =
    let (row, next) = add_folder fresh server_id input t in
    let (found, e) = find_folder-appended t.folders row in
    (
      load next found,
      subst
          (λ o. (elim o [ none ↦ none | some row ↦ some (load next row) ]) ≡ some (load next found))
          (sym e) refl,
    )

module _ {W : Type 0} (m : Machine W) where
  -- The engine after a write is the engine rebuilt from the tables after it.
  abbrev pub IsRebuilt : Store W → Store W → Type 0
  IsRebuilt s u = u.engine ≡ (rebuild m u.tables s.engine).1

  abbrev pub IsAtomic : Store W → Option WriteError → Store W → Type 0
  IsAtomic s none u = IsRebuilt s u
  IsAtomic s (some rebuild_failed) u = IsRebuilt s u
  IsAtomic s (some _) u = u ≡ s

  abbrev Settled : {A : Type 0} → Store W → Written A × Store W → Type 0
  Settled s out = IsAtomic s (refusal out.0) out.1

  tolerated-IsAtomic :
      {A : Type 0} (answer : A) (raised : Option EngineError) (s u : Store W)
      → IsRebuilt s u
      → IsAtomic s (refusal (tolerated m answer raised)) u
  tolerated-IsAtomic answer none s u h = h
  tolerated-IsAtomic answer (some runtime_error) s u h = h
  tolerated-IsAtomic answer (some build_error) s u h = h

  rebuild_engine-IsAtomic :
      {A : Type 0} (answer : A) (t : Tables) (s : Store W)
      → let out = rebuild_engine m answer t s.engine in IsAtomic s (refusal out.0) out.1
  unfolding rebuild_engine
  rebuild_engine-IsAtomic answer t s =
      tolerated-IsAtomic answer (rebuild m t s.engine).0 s
        (record { tables = t; engine = (rebuild m t s.engine).1 }) refl

  module _ (fresh : List ℕ → ℕ) (encrypt : Text → Text) where
    translated-IsAtomic :
        (r : Result (Server × Tables)) (s : Store W)
        → let out = translated m fresh encrypt r s in IsAtomic s (refusal out.0) out.1
    translated-IsAtomic (ok (server, t)) s = rebuild_engine-IsAtomic server t s
    translated-IsAtomic (err integrity_error) s = refl
    translated-IsAtomic (err key_error) s = refl

    untranslated-IsAtomic :
        {A : Type 0} (r : Result (A × Tables)) (s : Store W)
        → let out = untranslated m fresh encrypt r s in IsAtomic s (refusal out.0) out.1
    untranslated-IsAtomic (ok (answer, t)) s = rebuild_engine-IsAtomic answer t s
    untranslated-IsAtomic (err integrity_error) s = refl
    untranslated-IsAtomic (err key_error) s = refl

    update_existing-IsAtomic :
        (o : Option Server) (id : ℕ) (update : ServerUpdate) (s : Store W)
        → let out = update_existing m fresh encrypt o id update s in
          IsAtomic s (refusal out.0) out.1
    update_existing-IsAtomic none id update s = refl
    update_existing-IsAtomic (some existing) id update s =
        either (Settled s) (update_satisfied update existing)
          (untranslated-IsAtomic (update_server fresh encrypt id update s.tables) s) refl

    update_existing_with_folders-IsAtomic :
        (o : Option Server) (id : ℕ) (update : ServerUpdate) (folders : List FolderCreate)
        (s : Store W)
        → let out = update_existing_with_folders m fresh encrypt o id update folders s in
          IsAtomic s (refusal out.0) out.1
    update_existing_with_folders-IsAtomic none id update folders s = refl
    update_existing_with_folders-IsAtomic (some existing) id update folders s =
        either (Settled s) (update_satisfied update existing)
          (translated-IsAtomic (update_server_with_folders fresh encrypt id update folders s.tables)
            s)
          refl

    abbrev Answered : ℕ → FolderCreate → Tables → Store W → Option LoadedFolder → Type 0
    Answered server_id input t s o =
        let next : Store W = record {
          tables = (add_folder fresh server_id input t).1;
          engine = (rebuild m (add_folder fresh server_id input t).1 s.engine).1;
        } in
        IsAtomic s (refusal (elim o [ none ↦ refused assertion | some folder ↦ written folder ]))
          next

    read_again-IsAtomic :
        (server_id : ℕ) (input : FolderCreate) (t : Tables) (s : Store W)
        (raised : Option EngineError)
        → let row = (add_folder fresh server_id input t).0 in
          let next : Store W = record {
            tables = (add_folder fresh server_id input t).1;
            engine = (rebuild m (add_folder fresh server_id input t).1 s.engine).1;
          } in
          let out = read_again m fresh encrypt (tolerated m row.id raised, next) in
          IsAtomic s (refusal out.0) out.1
    read_again-IsAtomic server_id input t s (some build_error) = refl
    read_again-IsAtomic server_id input t s (some runtime_error) =
        subst (Answered server_id input t s) (sym (get_folder-add_folder fresh server_id input t).1)
          refl
    read_again-IsAtomic server_id input t s none =
        subst (Answered server_id input t s) (sym (get_folder-add_folder fresh server_id input t).1)
          refl

    folder_create-IsAtomic :
        (server_id : ℕ) (input : FolderCreate) (s : Store W)
        → let out = apply_folder_create m fresh encrypt server_id input s in
          IsAtomic s (refusal out.0) out.1
    unfolding apply_folder_create create_folder rebuild_engine
    folder_create-IsAtomic server_id input s = go (find_server server_id s.tables.servers)
      where
        go :
            (o : Option Server)
            → let out = read_again m fresh encrypt (
                untranslated m fresh encrypt
                  (with_id m fresh encrypt (elim o [
                    | none ↦ err integrity_error
                    | some _ ↦ ok (add_folder fresh server_id input s.tables)
                  ]))
                  s) in
              IsAtomic s (refusal out.0) out.1
        go none = refl
        go (some _) =
            read_again-IsAtomic server_id input s.tables s
              (rebuild m (add_folder fresh server_id input s.tables).1 s.engine).0

    -- A write of any core either leaves the tables and the engine as they were and answers with a
    -- refusal, or leaves the engine as its rebuild from the tables after the write leaves it. A
    -- refusal of the second kind is only what the rebuild itself raised.
    pub Write-IsAtomic :
        (s u : Store W) (e : Option WriteError) → Write m fresh encrypt s e u → IsAtomic s e u
    unfolding apply_server_create apply_server_create_with_folders apply_server_update
        apply_server_update_with_folders apply_server_delete apply_folder_update apply_folder_delete
    Write-IsAtomic _ _ _ (server_create input s) =
        either (Settled s) (secret_satisfied input.type (is_present input.secret))
          (translated-IsAtomic (create_server fresh encrypt input s.tables) s) refl
    Write-IsAtomic _ _ _ (server_create_with_folders input folders s) =
        either (Settled s) (secret_satisfied input.type (is_present input.secret))
          (translated-IsAtomic (create_server_with_folders fresh encrypt input folders s.tables) s)
          refl
    Write-IsAtomic _ _ _ (server_update id update s) =
        update_existing-IsAtomic (get_server id s.tables) id update s
    Write-IsAtomic _ _ _ (server_update_with_folders id update folders s) =
        update_existing_with_folders-IsAtomic (get_server id s.tables) id update folders s
    Write-IsAtomic _ _ _ (server_delete id s) =
        rebuild_engine-IsAtomic tt (delete_server id s.tables) s
    Write-IsAtomic _ _ _ (folder_create server_id input s) =
        folder_create-IsAtomic server_id input s
    Write-IsAtomic _ _ _ (folder_update id update s) =
        untranslated-IsAtomic (update_folder fresh m.lower id update s.tables) s
    Write-IsAtomic _ _ _ (folder_delete id s) =
        rebuild_engine-IsAtomic tt (delete_folder id s.tables) s
