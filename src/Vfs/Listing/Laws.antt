-- ===== src/Vfs/Listing/Laws.antt =====
-- The loop of `VFS_GetDirectoryContents` against the sequence that `readdir` lists.
use mathlib.Core.List.{append-nil, append_assoc}
use atom_os.Prelude.{
  ℕ, zero, suc, ◌≡◌, ◌<◌, ◌∙◌, ap, sym, true, false, Option, some, List, [], ◌∷◌, ◌++◌, ◌==◌, arith,
  length,
}
use atom_os.Vfs.Result.{VfsResult, value}
use atom_os.Vfs.State.{Vfs, Lookup, granted, spend, is_ok}
use atom_os.Vfs.Listing.{
  VfsDirEntry, is_missing, with_entry, contents_loop, vfs_get_directory_contents,
}
use atom_os.Vfs.Resolve.{vfs_resolve}

module _ {S : Type 0} (readdir : ℕ → S → VfsResult × VfsDirEntry × S) where
  -- From an index on, `readdir` lists these entries, and then no more.
  abbrev pub Lists : ℕ → S → List VfsDirEntry → Type 0
  Lists index s [] = (readdir index s).0 ≡ VfsResult.not_found
  Lists index s (e ∷ es) =
      ((readdir index s).0 ≡ VfsResult.ok)
      × ((readdir index s).1 ≡ e)
      × Lists (suc index) (readdir index s).2 es

  -- Two allocations for each entry, and one more for the round that ends the loop.
  abbrev pub Enough : List VfsDirEntry → Vfs → Type 0
  Enough [] v = granted v ≡ true
  Enough (e ∷ es) v = (granted v ≡ true) × (granted (spend v) ≡ true) × Enough es (spend (spend v))

  -- If `readdir` lists entries and then answers `VFS_RES_NOT_FOUND`, and the allocations succeed, the loop
  -- ends with all these entries in their order, on more fuel than there are entries.
  pub contents_loop_lem :
      (fuel index : ℕ) (contents es : List VfsDirEntry) (v : Vfs) (s : S)
      → length es < fuel
      → Lists index s es
      → Enough es v
      → (w : Vfs) × (s' : S) × (contents_loop fuel readdir index contents v s
          ≡ some (some (contents ++ es), w, s'))
  unfolding contents_loop
  contents_loop_lem zero index contents es v s l h g = absurd (omega arith)
  contents_loop_lem (suc fuel) index contents [] v s l h g = (spend v, (readdir index s).2, ends)
    where
      missing : is_missing (readdir index s).0 ≡ true
      missing = ap is_missing h

      ends :
          contents_loop (suc fuel) readdir index contents v s
          ≡ some (some (contents ++ []), spend v, (readdir index s).2)
      ends =
          unfold contents_loop in
          simp (g, missing, contents_loop)
            (ap (λ c. some (some c, spend v, (readdir index s).2)) (sym (append-nil contents)))
  contents_loop_lem (suc fuel) index contents (e ∷ es) v s l h g =
      let (w, s', runs) =
        contents_loop_lem fuel (suc index) (with_entry (spend v) contents (readdir index s).1) es
          (spend (spend v)) (readdir index s).2 (omega arith) h.2 g.2 in
      (w, s', round ∙ runs ∙ ap (λ c. some (some c, w, s')) collected)
    where
      present : is_missing (readdir index s).0 ≡ false
      present = ap is_missing h.0

      well : is_ok (readdir index s).0 ≡ true
      well = ap is_ok h.0

      round :
          contents_loop (suc fuel) readdir index contents v s
          ≡ contents_loop fuel readdir
              (suc index)
              (with_entry (spend v) contents (readdir index s).1)
              (spend (spend v))
              (readdir index s).2
      round = unfold contents_loop in simp (g.0, present, well, contents_loop)

      collected : with_entry (spend v) contents (readdir index s).1 ++ es ≡ contents ++ e ∷ es
      collected =
          simp g.1 (ap (λ x. (contents ++ x ∷ []) ++ es) h.1 ∙ append_assoc contents (e ∷ []) es)

-- If the path resolves to a directory whose `readdir` lists entries and then answers
-- `VFS_RES_NOT_FOUND`, and the allocations succeed (that of the list, two for each entry, and one for the
-- round that ends the loop), then `vfs_get_directory_contents` ends with all these entries in their order, on
-- more fuel than there are entries.
pub vfs_get_directory_contents_lem :
    {S : Type 0} (fuel : ℕ) (lookup : Lookup) (type_of : ℕ → ℕ)
    (readdir : ℕ → Option (ℕ → S → VfsResult × VfsDirEntry × S)) (v w : Vfs) (path : List ℕ) (s : S)
    (directory : ℕ) (op : ℕ → S → VfsResult × VfsDirEntry × S) (es : List VfsDirEntry)
    → vfs_resolve lookup v (some path) ≡ some (value directory, w)
    → type_of directory ≡ 1
    → readdir directory ≡ some op
    → granted w ≡ true
    → Enough op es (spend w)
    → Lists op 0 s es
    → length es < fuel
    → (u : Vfs) × (s' : S) × (vfs_get_directory_contents fuel lookup type_of readdir v (some path) s
        ≡ some (some es, u, s'))
vfs_get_directory_contents_lem fuel lookup type_of readdir v w path s directory op es r t o g n h
      l =
    let (u, s', runs) = contents_loop_lem op fuel 0 [] es (spend w) s l h n in
    (u, s', begins ∙ runs)
  where
    is_directory : (type_of directory == 1) ≡ true
    is_directory = ground (arith, t)

    begins :
        vfs_get_directory_contents fuel lookup type_of readdir v (some path) s
        ≡ contents_loop fuel op 0 [] (spend w) s
    begins =
        unfold vfs_get_directory_contents in
        simp (r, is_directory, o, g, vfs_get_directory_contents)
