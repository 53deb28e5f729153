-- ===== src/Watcher/FileTree.antt =====
-- A directory tree, as `os.walk` of the standard library reads it, from the top down.
use syno_plex_change_monitor.Base.{
  ℕ, suc, ◌+◌, ◌≡◌, refl, List, [], ◌∷◌, ◌++◌, if◌then◌else◌, nat_eq, list_eq, contains, arith,
  Bool-cases, inl, inr,
}
use syno_plex_change_monitor.Base.Lists.{length, length-append}
use syno_plex_change_monitor.Base.Text.{Text, slash, ends_with, starts_with}

mutual
  pub data Dir : Type 0 where
    dir : Entries → Dir

  pub data Entries : Type 0 where
    end : Entries
    file : Text → Entries → Entries
    sub : Text → Dir → Entries → Entries

-- `os.path.join` of two paths.
unfoldable pub path_join : Text → Text → Text
unfolding starts_with ends_with nat_eq
path_join a [] = if ends_with a slash then a else a ++ slash ∷ []
path_join [] (c ∷ b) = c ∷ b
path_join (d ∷ a) (c ∷ b) =
    if starts_with (c ∷ b) (slash ∷ [])
    then c ∷ b
    else if ends_with (d ∷ a) slash
    then (d ∷ a) ++ (c ∷ b)
    else (d ∷ a) ++ slash ∷ c ∷ b

abbrev pub file_names : Entries → List Text
file_names end = []
file_names (file name es) = name ∷ file_names es
file_names (sub name d es) = file_names es

-- A directory's path and the names of its files.
abbrev pub Visit : Type 0
Visit = Text × List Text

module _ (ignore_dirs : List Text) where
  -- The visits, where the caller takes the ignored names out of `dirnames`.
  unfoldable mutual
    unfolding path_join list_eq nat_eq

    pub walk : Dir → Text → List Visit
    walk (dir es) path = (path, file_names es) ∷ walk_entries es path

    pub walk_entries : Entries → Text → List Visit
    walk_entries end path = []
    walk_entries (file name es) path = walk_entries es path
    walk_entries (sub name d es) path =
        let rest = walk_entries es path in
        let inner = walk d (path_join path name) in
        if contains ignore_dirs name then rest else inner ++ rest

  -- The count of the same visits.
  unfoldable mutual
    unfolding list_eq nat_eq

    pub count_tree : Dir → ℕ
    count_tree (dir es) = suc (count_entries es)

    pub count_entries : Entries → ℕ
    count_entries end = 0
    count_entries (file name es) = count_entries es
    count_entries (sub name d es) =
        let rest = count_entries es in
        let inner = count_tree d in if contains ignore_dirs name then rest else inner + rest

  mutual
    unfolding walk count_tree walk_entries count_entries

    length-walk_mutual : (d : Dir) (path : Text) → length (walk d path) ≡ count_tree d
    length-walk_mutual (dir es) path = omega (arith, length-walk_entries es path)

    length-walk_entries :
        (es : Entries) (path : Text) → length (walk_entries es path) ≡ count_entries es
    length-walk_entries end path = refl
    length-walk_entries (file name es) path = length-walk_entries es path
    length-walk_entries (sub name d es) path = elim (Bool-cases (contains ignore_dirs name)) [
      | inl e ↦ rw e (length-walk_entries es path)
      | inr e ↦ rw e (
          omega (
            arith,
            length-append (walk d (path_join path name)) (walk_entries es path),
            length-walk_mutual d (path_join path name),
            length-walk_entries es path,
          ))
    ]

  pub length-walk : (d : Dir) (path : Text) → length (walk d path) ≡ count_tree d
  length-walk d path = length-walk_mutual d path
