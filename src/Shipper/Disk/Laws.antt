-- ===== src/Shipper/Disk/Laws.antt =====
-- The files that a purge removes.
use cloudzero_agent.Base.{
  ℕ, zero, suc, ◌≤◌, String, Bool, true, false, not, ◌&&◌, ◌||◌, List, [], ◌∷◌, take, drop, any,
  count_if, All, length, select, ltb, eqb, ◌==◌, eq_iff, ok, Bool-cases, inl, inr, ◌≡◌, refl, sym,
  ◌∙◌, ap, arith,
}
use cloudzero_agent.Shipper.Disk.{
  UploadedFile, Host, remove_files, num_to_remove, paths_of, purge_oldest_percentage,
}

-- Whether a path is among some paths.
abbrev pub is_among : String → List String → Bool
is_among path paths = any (λ p. path == p) paths

module _ (can_remove : String → Bool) where
  remove_files-removed :
      (paths : List String) (files : List UploadedFile)
      → (remove_files can_remove paths files).0 ≡ count_if can_remove paths
  unfolding remove_files
  remove_files-removed [] files = refl
  remove_files-removed (p ∷ paths) files = ground (
    arith,
    remove_files-removed paths files,
    remove_files-removed paths (select (λ f. not (f.path == p)) files),
  )

  select-select :
      (p q : UploadedFile → Bool) (files : List UploadedFile)
      → select q (select p files) ≡ select (λ f. p f && q f) files
  select-select p q [] = refl
  select-select p q (f ∷ files) = ground (arith, select-select p q files)

  select-cong :
      (p q : UploadedFile → Bool) (files : List UploadedFile)
      → ((f : UploadedFile) → p f ≡ q f)
      → select p files ≡ select q files
  select-cong p q [] h = refl
  select-cong p q (f ∷ files) h = rw (h f, select-cong p q files h) refl

  select_all :
      (p : UploadedFile → Bool) (files : List UploadedFile)
      → ((f : UploadedFile) → p f ≡ true)
      → select p files ≡ files
  select_all p [] h = refl
  select_all p (f ∷ files) h = rw (h f) (ap (λ l. f ∷ l) (select_all p files h))

  -- The test for one path more, removed or not.
  removed_path :
      (p path : String) (paths : List String)
      → can_remove p ≡ true
      → not (path == p) && not (is_among path paths && can_remove path)
        ≡ not ((path == p || is_among path paths) && can_remove path)
  removed_path p path paths e = elim (Bool-cases (path == p)) [
    | inl f ↦ rw (f, (eq_iff path p).0 f, e) refl
    | inr f ↦ rw f refl
  ]

  kept_path :
      (p path : String) (paths : List String)
      → can_remove p ≡ false
      → not (is_among path paths && can_remove path)
        ≡ not ((path == p || is_among path paths) && can_remove path)
  kept_path p path paths e = elim (Bool-cases (path == p)) [
    | inl f ↦ ground (arith, ap can_remove ((eq_iff path p).0 f))
    | inr f ↦ rw f refl
  ]

  -- What is left is what was not meant to go, and what could not be removed.
  remove_files-kept :
      (paths : List String) (files : List UploadedFile)
      → (remove_files can_remove paths files).1
        ≡ select (λ f. not (is_among f.path paths && can_remove f.path)) files
  unfolding remove_files
  remove_files-kept [] files = sym (select_all _ files (λ f. refl))
  remove_files-kept (p ∷ paths) files = elim (Bool-cases (can_remove p)) [
    | inl e ↦ rw e (
        remove_files-kept paths (select (λ f. not (f.path == p)) files)
        ∙ select-select (λ f. not (f.path == p))
            (λ f. not (is_among f.path paths && can_remove f.path)) files
        ∙ select-cong _ _ files (λ f. removed_path p f.path paths e))
    | inr e ↦
        rw e
          (remove_files-kept paths files ∙ select-cong _ _ files (λ f. kept_path p f.path paths e))
  ]

-- The times do not decrease.
abbrev pub IsSorted : List UploadedFile → Type 0
IsSorted [] = Unit
IsSorted (f ∷ files) = All (λ (g : UploadedFile). f.mod_time ≤ g.mod_time) files × IsSorted files

All-drop {κ} :
    (P : UploadedFile → Type κ) (n : ℕ) (files : List UploadedFile)
    → All P files
    → All P (drop n files)
All-drop P zero files h = h
All-drop P (suc n) [] h = tt
All-drop P (suc n) (f ∷ files) (h, hs) = All-drop P n files hs

IsSorted-take :
    (n : ℕ) (files : List UploadedFile)
    → IsSorted files
    → All (λ f. All (λ (g : UploadedFile). f.mod_time ≤ g.mod_time) (drop n files)) (take n files)
IsSorted-take zero files h = tt
IsSorted-take (suc n) [] h = tt
IsSorted-take (suc n) (f ∷ files) (h, hs) =
    (All-drop (λ g. f.mod_time ≤ g.mod_time) n files h, IsSorted-take n files hs)

take_empty : (n : ℕ) (files : List UploadedFile) → length files ≡ 0 → take n files ≡ []
take_empty zero files h = refl
take_empty (suc n) [] h = refl
take_empty (suc n) (f ∷ files) h = absurd (omega arith)

module _ {Usage : Type 0} (host : Host Usage) where
  -- How many of the files in their order of time are chosen.
  abbrev pub chosen : ℕ → List UploadedFile → List UploadedFile
  chosen percent files = take (num_to_remove (length files) percent) (host.sort files)

  abbrev pub others : ℕ → List UploadedFile → List UploadedFile
  others percent files = drop (num_to_remove (length files) percent) (host.sort files)

  -- If the walk succeeds, `sort.Slice` sorts, and the percentage is at most 100, the purge by
  -- percentage leaves exactly the files that were not chosen and the ones that could not be removed,
  -- reports the number of chosen files that could be removed, and no file that was not chosen is
  -- older than a chosen one.
  pub purge_oldest_percentage-oldest :
      (percent : ℕ) (files : List UploadedFile)
      → percent ≤ 100
      → host.walk_fails 1 ≡ false
      → IsSorted (host.sort files)
      → length (host.sort files) ≡ length files
      → ((purge_oldest_percentage host percent files).1
          ≡ select
              (λ f.
                not (is_among f.path (paths_of (chosen percent files)) && host.can_remove f.path))
              files)
        × ((purge_oldest_percentage host percent files).0
            ≡ ok (count_if host.can_remove (paths_of (chosen percent files))))
        × All
            (λ f. All (λ (g : UploadedFile). f.mod_time ≤ g.mod_time) (others percent files))
            (chosen percent files)
  unfolding purge_oldest_percentage
  purge_oldest_percentage-oldest percent [] h w sorted same =
      let none_chosen = take_empty (num_to_remove 0 percent) (host.sort []) same in
      let within : ltb 100 percent ≡ false = ground arith in
      rw (within, w, none_chosen) ((refl, refl, tt))
  purge_oldest_percentage-oldest percent (f ∷ files) h w sorted same =
      let paths = paths_of (chosen percent (f ∷ files)) in
      let within : ltb 100 percent ≡ false = ground arith in
      let nonempty : eqb (length (f ∷ files)) 0 ≡ false = ground arith in
      rw (within, w, nonempty)
        ((
          remove_files-kept host.can_remove paths (f ∷ files),
          ap ok (remove_files-removed host.can_remove paths (f ∷ files)),
          IsSorted-take (num_to_remove (length (f ∷ files)) percent) (host.sort (f ∷ files)) sorted,
        ))
