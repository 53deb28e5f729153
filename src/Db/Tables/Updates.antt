-- ===== src/Db/Tables/Updates.antt =====
-- Which updates of the tables keep their keys consistent.
use syno_plex_change_monitor.Base.{
  ℕ, ◌≡◌, refl, sym, ◌∙◌, ap, true, false, not, List, [], ◌∷◌, ◌++◌, map, ◌==◌, nat_eq, list_eq,
  contains, arith, Bool-cases, inl, inr,
}
use mathlib.Core.Path.{subst}
use syno_plex_change_monitor.Base.Distinct.{
  Distinct, Distinct-append_one, Distinct-map-filter, contains-map_kept, All-filter_map, All-zip,
}
use syno_plex_change_monitor.Base.Lists.{filter, All, All-map, All-filter}
use syno_plex_change_monitor.Base.Text.{Text}
use syno_plex_change_monitor.Models.{Server, Folder, FileType}
use syno_plex_change_monitor.Db.Tables.{
  Tables, name_taken, replace_server, server_ids, folder_ids, folders_of, remove_folders,
  remove_server,
}
use syno_plex_change_monitor.Db.Tables.Consistent.{
  names, Belongs, Attached, IsConsistent, server_ids-replace_server,
}

-- A new server

name_taken-names :
    (id : ℕ) (name : Text) (servers : List Server)
    → name_taken id name servers ≡ false
    → contains (server_ids servers) id ≡ false
    → contains (names servers) name ≡ false
unfolding name_taken
name_taken-names id name [] h k = refl
name_taken-names id name (s ∷ servers) h k =
    ground (arith, name_taken-names id name servers (ground arith) (ground arith))

pub contains-map_append_one :
    {A : Type 0} (key : A → ℕ) (xs : List A) (x : A) (k : ℕ)
    → contains (map key xs) k ≡ true
    → contains (map key (xs ++ (x ∷ []))) k ≡ true
contains-map_append_one key [] x k h = absurd (ground arith)
contains-map_append_one key (y ∷ xs) x k h = elim (Bool-cases (k == key y)) [
  | inl e ↦ ground arith
  | inr e ↦ ground (arith, contains-map_append_one key xs x k (ground arith))
]

pub map-append_one :
    {A B : Type 0} (f : A → B) (xs : List A) (x : A)
    → map f (xs ++ (x ∷ [])) ≡ map f xs ++ (f x ∷ [])
map-append_one f [] x = refl
map-append_one f (y ∷ xs) x = ap (λ zs. f y ∷ zs) (map-append_one f xs x)

pub append_server-IsConsistent :
    (t : Tables) (row : Server)
    → IsConsistent t
    → contains (server_ids t.servers) row.id ≡ false
    → name_taken row.id row.name t.servers ≡ false
    → IsConsistent (record t { servers = t.servers ++ (row ∷ []) })
append_server-IsConsistent t row c fresh free = record {
  servers =
      subst Distinct (sym (map-append_one (λ s. s.id) t.servers row))
        (Distinct-append_one (server_ids t.servers) row.id c.servers fresh);
  unique_names = subst Distinct (sym (map-append_one (λ s. s.name) t.servers row)) (
      Distinct-append_one (names t.servers) row.name c.unique_names
        (name_taken-names row.id row.name t.servers free fresh));
  folders = c.folders;
  filetypes = c.filetypes;
  belong =
      All-map (Belongs t.servers) (Belongs (t.servers ++ (row ∷ [])))
        (λ f h. contains-map_append_one (λ s. s.id) t.servers row f.server_id h) t.folders c.belong;
  attached = c.attached;
}

-- A changed server

replace_server_absent :
    (row : Server) (servers : List Server)
    → contains (server_ids servers) row.id ≡ false
    → replace_server row servers ≡ servers
unfolding replace_server
replace_server_absent row [] h = refl
replace_server_absent row (s ∷ servers) h = elim (nat_eq.dec s.id row.id) [
  | yes e ↦ absurd (ground (arith, sym e))
  | no n ↦ ground (arith, replace_server_absent row servers (ground arith))
]

contains-names_replaced :
    (row : Server) (servers : List Server) (name : Text)
    → contains (names servers) name ≡ false
    → name == row.name ≡ false
    → contains (names (replace_server row servers)) name ≡ false
unfolding replace_server
contains-names_replaced row [] name h k = refl
contains-names_replaced row (s ∷ servers) name h k =
    ground (arith, contains-names_replaced row servers name (ground arith) k)

replaced_same :
    (row s : Server) (servers : List Server)
    → s.id ≡ row.id
    → replace_server row (s ∷ servers) ≡ row ∷ replace_server row servers
unfolding replace_server
replaced_same row s servers e = ground arith

replaced_other :
    (row s : Server) (servers : List Server)
    → (s.id ≡ row.id → ⊥)
    → replace_server row (s ∷ servers) ≡ s ∷ replace_server row servers
unfolding replace_server
replaced_other row s servers n = ground arith

name_taken-tail :
    (id : ℕ) (name : Text) (s : Server) (servers : List Server)
    → name_taken id name (s ∷ servers) ≡ false
    → name_taken id name servers ≡ false
unfolding name_taken
name_taken-tail id name s servers h = ground arith

name_taken-head :
    (id : ℕ) (name : Text) (s : Server) (servers : List Server)
    → name_taken id name (s ∷ servers) ≡ false
    → (s.id ≡ id → ⊥)
    → s.name == name ≡ false
unfolding name_taken
name_taken-head id name s servers h n = ground arith

Distinct-names_replaced :
    (row : Server) (servers : List Server)
    → Distinct (server_ids servers)
    → Distinct (names servers)
    → name_taken row.id row.name servers ≡ false
    → Distinct (names (replace_server row servers))
Distinct-names_replaced row [] d n free = unfold replace_server in tt
Distinct-names_replaced row (s ∷ servers) (i, d) (h, n) free = elim (nat_eq.dec s.id row.id) [
  | yes e ↦
      let absent : contains (server_ids servers) row.id ≡ false = rw e at i in
      subst (λ l. Distinct (names l))
        (sym (
          replaced_same row s servers e
          ∙ ap (λ l. row ∷ l) (replace_server_absent row servers absent)))
        (
          name_taken-names row.id row.name servers (name_taken-tail row.id row.name s servers free)
              absent,
          n,
        )
  | no e ↦
      subst (λ l. Distinct (names l)) (sym (replaced_other row s servers e))
        (
          contains-names_replaced row servers s.name h
              (name_taken-head row.id row.name s servers free e),
          Distinct-names_replaced row servers d n (name_taken-tail row.id row.name s servers free),
        )
]

pub replace_server-IsConsistent :
    (t : Tables) (row : Server)
    → IsConsistent t
    → name_taken row.id row.name t.servers ≡ false
    → IsConsistent (record t { servers = replace_server row t.servers })
replace_server-IsConsistent t row c free = record {
  servers = subst Distinct (sym (server_ids-replace_server row t.servers)) c.servers;
  unique_names = Distinct-names_replaced row t.servers c.servers c.unique_names free;
  folders = c.folders;
  filetypes = c.filetypes;
  belong =
      subst (λ ids. All (λ (f : Folder). contains ids f.server_id ≡ true) t.folders)
        (sym (server_ids-replace_server row t.servers)) c.belong;
  attached = c.attached;
}

-- Rows that are removed

not_gone : (gone : List ℕ) (k : ℕ) → not (contains gone k) ≡ true → contains gone k ≡ false
not_gone gone k h = ground arith

pub remove_folders-IsConsistent :
    (gone : List ℕ) (t : Tables) → IsConsistent t → IsConsistent (remove_folders gone t)
unfolding remove_folders
remove_folders-IsConsistent gone t c = record {
  servers = c.servers;
  unique_names = c.unique_names;
  folders =
      Distinct-map-filter (λ (f : Folder). f.id) (λ f. not (contains gone f.id)) t.folders
        c.folders;
  filetypes =
      Distinct-map-filter (λ (x : FileType). x.id) (λ x. not (contains gone x.folder_id))
        t.filetypes c.filetypes;
  belong = All-filter (Belongs t.servers) (λ f. not (contains gone f.id)) t.folders c.belong;
  attached =
      All-filter_map (Attached t.folders)
        (Attached (filter (λ f. not (contains gone f.id)) t.folders))
        (λ x. not (contains gone x.folder_id))
        (λ x h kept.
          contains-map_kept (λ (f : Folder). f.id) (λ f. not (contains gone f.id)) t.folders
            x.folder_id (λ f e. rw e kept) h)
        t.filetypes c.attached;
}

-- The folders of a server are all among those that go with it.
contains-folders_of :
    (id : ℕ) (folders more : List Folder)
    → ((k : ℕ)
        → contains (folder_ids (folders_of id folders)) k ≡ true
        → contains (folder_ids more) k ≡ true)
    → All (λ f. f.server_id == id ≡ true → contains (folder_ids more) f.id ≡ true) folders
contains-folders_of id [] more sub = tt
contains-folders_of id (f ∷ folders) more sub = (
  (λ h. sub f.id (ground arith)),
  contains-folders_of id folders more (λ k h. sub k (ground arith)),
)

abbrev Gone : ℕ → List ℕ → Folder → Type 0
Gone id gone f = f.server_id == id ≡ true → contains gone f.id ≡ true

-- A folder that is kept belongs to a server that is kept.
Belongs-kept :
    (id : ℕ) (gone : List ℕ) (servers : List Server) (f : Folder)
    → Belongs servers f
    → Gone id gone f
    → not (contains gone f.id) ≡ true
    → Belongs (filter (λ s. not (s.id == id)) servers) f
Belongs-kept id gone servers f h g kept =
    contains-map_kept (λ s. s.id) (λ s. not (s.id == id)) servers f.server_id
      (λ s e. elim (Bool-cases (f.server_id == id)) [
        | inl q ↦ absurd (ground (arith, g q))
        | inr q ↦ rw e (rw q refl)
      ])
      h

pub remove_server-IsConsistent :
    (id : ℕ) (t : Tables) → IsConsistent t → IsConsistent (remove_server id t)
unfolding remove_server
remove_server-IsConsistent id t c =
    let gone = folder_ids (folders_of id t.folders) in
    let rest = remove_folders-IsConsistent gone t c in
    record {
      servers =
          Distinct-map-filter (λ (s : Server). s.id) (λ s. not (s.id == id)) t.servers c.servers;
      unique_names =
          Distinct-map-filter (λ (s : Server). s.name) (λ s. not (s.id == id)) t.servers
            c.unique_names;
      folders = rest.folders;
      filetypes = rest.filetypes;
      belong =
          All-filter_map (λ f. Belongs t.servers f × Gone id gone f)
            (Belongs (filter (λ s. not (s.id == id)) t.servers)) (λ f. not (contains gone f.id))
            (λ f h kept. Belongs-kept id gone t.servers f h.0 h.1 kept) t.folders
            (All-zip (Belongs t.servers) (Gone id gone) t.folders c.belong
              (contains-folders_of id t.folders (folders_of id t.folders) (λ k h. h)));
      attached = rest.attached;
    }
