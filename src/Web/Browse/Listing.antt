-- ===== src/Web/Browse/Listing.antt =====
-- What a listing of a directory holds.
use syno_plex_change_monitor.Base.{
  ℕ, ◌≡◌, ◌≤◌, ◌<◌, suc, ◌⊎◌, refl, sym, ◌∙◌, ap, Bool, true, false, Bool-cases, Option, none, some,
  List, [], ◌∷◌, ◌++◌, map, inl, inr, nat_eq, list_eq, arith, contains, leb,
}
use mathlib.Core.Path.{subst}
use mathlib.Core.List.{append_assoc, append-nil}
use syno_plex_change_monitor.Base.Lists.{
  All, All-map, All-filter_self, All-of_map, filter, length, length-append,
}
use syno_plex_change_monitor.Base.Sort.{sorted, insert_sorted, text_leb}
use syno_plex_change_monitor.Base.Text.{Text}
use syno_plex_change_monitor.Watcher.FileTree.{path_join}
use syno_plex_change_monitor.Web.Browse.{
  FsEntry, DirListing, entry_of, is_listed, hidden_dir_names, max_entries, list_entries,
  list_directory, listed_as, listing_of, absolute,
}

All-prefix : {A : Type 0} (P : A → Type 0) (xs ys : List A) → All P (xs ++ ys) → All P xs
All-prefix P [] ys h = tt
All-prefix P (x ∷ xs) ys (h, hs) = (h, All-prefix P xs ys hs)

All-insert_sorted :
    {A : Type 0} (P : A → Type 0) (le : A → A → Bool) (x : A) (xs : List A)
    → P x
    → All P xs
    → All P (insert_sorted le x xs)
unfolding insert_sorted
All-insert_sorted P le x [] p h = (p, tt)
All-insert_sorted P le x (y ∷ xs) p (q, h) = elim (Bool-cases (le x y)) [
  | inl e ↦ rw e (p, (q, h))
  | inr e ↦ rw e (q, All-insert_sorted P le x xs p h)
]

All-sorted :
    {A : Type 0} (P : A → Type 0) (le : A → A → Bool) (xs : List A)
    → All P xs
    → All P (sorted le xs)
unfolding sorted
All-sorted P le [] h = tt
All-sorted P le (x ∷ xs) (p, h) = All-insert_sorted P le x (sorted le xs) p (All-sorted P le xs h)

length-insert_sorted :
    {A : Type 0} (le : A → A → Bool) (x : A) (xs : List A)
    → length (insert_sorted le x xs) ≡ suc (length xs)
unfolding insert_sorted
length-insert_sorted le x [] = refl
length-insert_sorted le x (y ∷ xs) = elim (Bool-cases (le x y)) [
  | inl e ↦ rw e refl
  | inr e ↦ rw e (ap suc (length-insert_sorted le x xs))
]

length-sorted : {A : Type 0} (le : A → A → Bool) (xs : List A) → length (sorted le xs) ≡ length xs
unfolding sorted
length-sorted le [] = refl
length-sorted le (x ∷ xs) = length-insert_sorted le x (sorted le xs) ∙ ap suc (length-sorted le xs)

abbrev pub Scanned : Type 0
Scanned = Text × Option Bool

-- The directories of a scan that are to be shown.
abbrev pub shown : Text → List Scanned → List FsEntry
shown target scanned = map (λ x. entry_of target x.0) (filter (λ x. is_listed x.0 x.1) scanned)

-- What the loop gives for the entries to show: all of them, or the first ones with the mark.
abbrev IsCut : List FsEntry → List FsEntry × Bool → Type 0
IsCut all (entries, truncated) =
    ((truncated ≡ false) × (entries ≡ all) × (length all ≤ max_entries))
    ⊎ ((truncated ≡ true)
        × (length entries ≡ max_entries)
        × (max_entries < length all)
        × ((rest : List FsEntry) × (all ≡ entries ++ rest)))

full_at : (n : ℕ) → n ≤ max_entries → leb max_entries n ≡ true → n ≡ max_entries
full_at n h e = ground arith

room_at : (n : ℕ) → leb max_entries n ≡ false → suc n ≤ max_entries
room_at n e = ground arith

list_entries-IsCut :
    (target : Text) (scanned : List Scanned) (listed : List FsEntry)
    → length listed ≤ max_entries
    → IsCut (listed ++ shown target scanned) (list_entries target scanned listed)
unfolding list_entries
list_entries-IsCut target [] listed h =
    inl (
      refl,
      sym (append-nil listed),
      subst (λ l. length l ≤ max_entries) (sym (append-nil listed)) h,
    )
list_entries-IsCut target ((name, is_dir) ∷ scanned) listed h =
    elim (Bool-cases (is_listed name is_dir)) [
      | inr e ↦ rw e (list_entries-IsCut target scanned listed h)
      | inl e ↦ elim (Bool-cases (leb max_entries (length listed))) [
        | inl f ↦
            let more = entry_of target name ∷ shown target scanned in
            let whole = full_at (length listed) h f in
            rw (e, f)
              (inr (
                refl,
                whole,
                subst (λ n. max_entries < n) (sym (length-append listed more)) (omega arith),
                (more, refl),
              ))
        | inr f ↦
            let next = listed ++ (entry_of target name ∷ []) in
            let kept : length next ≤ max_entries =
              subst (λ n. n ≤ max_entries) (sym (length-append listed (entry_of target name ∷ [])))
                (let room = room_at (length listed) f in omega arith) in
            rw (e, f)
              (subst (λ all. IsCut all (list_entries target scanned next))
                (append_assoc listed (entry_of target name ∷ []) (shown target scanned))
                (list_entries-IsCut target scanned next kept))
      ]
    ]

-- An entry that may be shown of a directory.
abbrev pub IsEntryOf : Text → FsEntry → Type 0
IsEntryOf target entry =
    (entry.path ≡ path_join target entry.name) × (contains hidden_dir_names entry.name ≡ false)

shown-IsEntryOf :
    (target : Text) (scanned : List Scanned) → All (IsEntryOf target) (shown target scanned)
shown-IsEntryOf target scanned =
    All-of_map (IsEntryOf target) (λ x. entry_of target x.0)
      (filter (λ x. is_listed x.0 x.1) scanned)
      (All-map (λ x. is_listed x.0 x.1 ≡ true) (λ x. IsEntryOf target (entry_of target x.0))
        (λ x h. (refl, visible x.0 x.1 h)) (filter (λ x. is_listed x.0 x.1) scanned)
        (All-filter_self (λ x. is_listed x.0 x.1) scanned))
  where
    visible :
        (name : Text) (is_dir : Option Bool)
        → is_listed name is_dir ≡ true
        → contains hidden_dir_names name ≡ false
    visible name none h = absurd (ground arith)
    visible name (some is_dir) h = ground arith

-- The listing of a scan.
abbrev pub IsListing : Text → List Scanned → DirListing → Type 0
IsListing target scanned listing =
    (listing.path ≡ target)
    × (length listing.entries ≤ max_entries)
    × All (IsEntryOf target) listing.entries
    × (((listing.truncated ≡ false) × (length listing.entries ≡ length (shown target scanned)))
        ⊎ ((listing.truncated ≡ true)
            × (length listing.entries ≡ max_entries)
            × (max_entries < length (shown target scanned))))

module _ (cwd : Text) (scandir : Text → Option (List Scanned)) (lower : Text → Text) where
  listing_of-IsListing :
      (target : Text) (scanned : List Scanned) (out : List FsEntry × Bool)
      → IsCut (shown target scanned) out
      → IsListing target scanned (listing_of cwd scandir lower target out)
  listing_of-IsListing target scanned (entries, truncated) (inl (t, e, h)) =
      let before : FsEntry → FsEntry → Bool = λ a b. text_leb (lower a.name) (lower b.name) in
      let size = length-sorted before entries ∙ ap length e in
      (
        refl,
        subst (λ n. n ≤ max_entries) (sym size) h,
        All-sorted (IsEntryOf target) before entries
            (subst (All (IsEntryOf target)) (sym e) (shown-IsEntryOf target scanned)),
        inl (t, size),
      )
  listing_of-IsListing target scanned (entries, truncated) (inr (t, l, h, (rest, e))) =
      let before : FsEntry → FsEntry → Bool = λ a b. text_leb (lower a.name) (lower b.name) in
      let size = length-sorted before entries ∙ l in
      (
        refl,
        subst (λ n. n ≤ max_entries) (sym size) (omega arith),
        All-sorted (IsEntryOf target) before entries (
            All-prefix (IsEntryOf target) entries rest
              (subst (All (IsEntryOf target)) e (shown-IsEntryOf target scanned))),
        inr (t, size, h),
      )

  listed_as-IsListing :
      (target : Text) (scanned : List Scanned)
      → (listing : DirListing) × (listed_as cwd scandir lower target (some scanned) ≡ some listing)
        × IsListing target scanned listing
  listed_as-IsListing target scanned = (
    listing_of cwd scandir lower target (list_entries target scanned []),
    refl,
    listing_of-IsListing target scanned (list_entries target scanned [])
        (list_entries-IsCut target scanned [] (omega arith)),
  )

  -- The listing for what the scan gives: none for a directory that cannot be read.
  abbrev pub IsListed : Text → Option (List Scanned) → Option DirListing → Type 0
  IsListed target none out = out ≡ none
  IsListed target (some scanned) out =
      (listing : DirListing) × (out ≡ some listing) × IsListing target scanned listing

  listed_as-IsListed :
      (target : Text) (o : Option (List Scanned))
      → IsListed target o (listed_as cwd scandir lower target o)
  listed_as-IsListed target none = refl
  listed_as-IsListed target (some scanned) = listed_as-IsListing target scanned

  -- A directory that cannot be read has no listing; any other has one. It is of the path made
  -- absolute and normal, and has at most 1000 entries, each under that path and none of a hidden
  -- name. Not truncated, it has as many entries as the scan has directories to show; truncated, it
  -- has exactly 1000, and the scan has more.
  pub list_directory_lem :
      (path : Text)
      → IsListed
          (absolute cwd path)
          (scandir (absolute cwd path))
          (list_directory cwd scandir lower path)
  unfolding list_directory
  list_directory_lem path = listed_as-IsListed (absolute cwd path) (scandir (absolute cwd path))
