-- ===== src/Vfs/Listing.antt =====
-- Queries by path in kernel/filesystem/VFS.c: `VFS_ResolveAt`, `VFS_ReadDir`, `VFS_DirectoryExists`,
-- `VFS_FileExists` and `VFS_GetDirectoryContents`; and the statistics of the cache. What the drivers
-- keep is a type `S`.
pub mod Laws
use atom_os.Prelude.{
  ℕ, zero, suc, ◌≡◌, Bool, true, false, not, ◌||◌, Option, none, some, List, [], ◌∷◌, ◌++◌, ◌==◌,
  if◌then◌else◌, length,
}
use atom_os.Vfs.Result.{VfsResult, Outcome, value, fails}
use atom_os.Vfs.Path.{slash}
use atom_os.Vfs.State.{Vfs, Lookup, granted, spend, is_ok}
use atom_os.Vfs.Resolve.{vfs_walk, vfs_resolve}

pub record VfsDirEntry : Type 0 where
  pub name : List ℕ
  pub type : ℕ

pub record VfsCacheStats : Type 0 where
  pub hits : ℕ
  pub misses : ℕ
  pub entries : ℕ
  pub capacity : ℕ

unfoldable pub vfs_cache_reset_stats : Vfs → Vfs
vfs_cache_reset_stats v = record v { hits = 0; misses = 0 }

unfoldable pub vfs_cache_get_stats : Vfs → VfsCacheStats
vfs_cache_get_stats v = record {
  hits = v.hits;
  misses = v.misses;
  entries = length v.cache;
  capacity = v.capacity;
}

abbrev pub is_missing : VfsResult → Bool
is_missing VfsResult.not_found = true
is_missing _ = false

-- What a path resolves to, when only the answer counts.
abbrev pub holds_of : (ℕ → Bool) → Option (Outcome ℕ × Vfs) → Option (Bool × Vfs)
holds_of test none = none
holds_of test (some (fails r, v)) = some (false, v)
holds_of test (some (value node, v)) = some (test node, v)

module _ (lookup : Lookup) (type_of : ℕ → ℕ) where
  -- `VFS_NODE_DIRECTORY` is 1, `VFS_NODE_REGULAR` 2 and `VFS_NODE_SYMLINK` 3.
  unfoldable pub vfs_directory_exists : Vfs → Option (List ℕ) → Option (Bool × Vfs)
  vfs_directory_exists v none = some (false, v)
  vfs_directory_exists v (some p) = holds_of (λ n. type_of n == 1) (vfs_resolve lookup v (some p))

  unfoldable pub vfs_file_exists : Vfs → Option (List ℕ) → Option (Bool × Vfs)
  vfs_file_exists v none = some (false, v)
  vfs_file_exists v (some p) =
      holds_of (λ n. type_of n == 2 || type_of n == 3) (vfs_resolve lookup v (some p))

-- The node to begin at, the root of the root mount where none is given.
abbrev pub base_of : Vfs → Option ℕ → Option ℕ
base_of v (some node) = some node
base_of v none = elim v.root_mount [ none ↦ none | some m ↦ some m.root ]

abbrev pub stays : Vfs → Option (Outcome ℕ) → Option (Outcome ℕ × Vfs)
stays v none = none
stays v (some o) = some (o, v)

module _ (lookup : Lookup) where
  unfoldable pub vfs_resolve_at : Vfs → Option ℕ → Option (List ℕ) → Option (Outcome ℕ × Vfs)
  vfs_resolve_at v start none = some (fails VfsResult.invalid, v)
  vfs_resolve_at v start (some []) = elim (base_of v start) [
    | none ↦ some (fails VfsResult.not_found, v)
    | some base ↦ some (value base, v)
  ]
  vfs_resolve_at v start (some (c ∷ p)) =
      if c == slash then vfs_resolve lookup v (some (c ∷ p)) else elim (base_of v start) [
        | none ↦ some (fails VfsResult.not_found, v)
        | some base ↦ stays v (vfs_walk lookup v.parents base (c ∷ p))
      ]

-- `List_Add` of an entry, which is lost where the node of the list cannot be allocated.
abbrev pub with_entry : Vfs → List VfsDirEntry → VfsDirEntry → List VfsDirEntry
with_entry v contents e = if granted v then contents ++ e ∷ [] else contents

module _ {S : Type 0} where
  -- The loop over `readdir`; `none` in front means that it runs out of fuel. The struct of an entry is
  -- allocated before the call, the node of the list behind it.
  unfoldable pub contents_loop :
      ℕ
      → (ℕ → S → VfsResult × VfsDirEntry × S)
      → ℕ
      → List VfsDirEntry
      → Vfs
      → S
      → Option (Option (List VfsDirEntry) × Vfs × S)
  contents_loop zero readdir index contents v s = none
  contents_loop (suc fuel) readdir index contents v s = elim (granted v) [
    | false ↦ some (none, spend v, s)
    | true ↦ elim (is_missing (readdir index s).0) [
      | true ↦ some (some contents, spend v, (readdir index s).2)
      | false ↦ elim (is_ok (readdir index s).0) [
        | false ↦ some (none, spend v, (readdir index s).2)
        | true ↦
            contents_loop fuel readdir (suc index)
              (with_entry (spend v) contents (readdir index s).1) (spend (spend v))
              (readdir index s).2
      ]
    ]
  ]

  unfoldable pub vfs_read_dir :
      (ℕ → ℕ)
      → (ℕ → Option (ℕ → S → VfsResult × VfsDirEntry × S))
      → ℕ
      → ℕ
      → S
      → VfsResult × Option VfsDirEntry × S
  vfs_read_dir type_of readdir directory index s =
      if not (type_of directory == 1)
      then (VfsResult.invalid, none, s)
      else elim (readdir directory) [
        | none ↦ (VfsResult.unsupported, none, s)
        | some op ↦ ((op index s).0, some (op index s).1, (op index s).2)
      ]

  unfoldable pub vfs_get_directory_contents :
      ℕ
      → Lookup
      → (ℕ → ℕ)
      → (ℕ → Option (ℕ → S → VfsResult × VfsDirEntry × S))
      → Vfs
      → Option (List ℕ)
      → S
      → Option (Option (List VfsDirEntry) × Vfs × S)
  vfs_get_directory_contents fuel lookup type_of readdir v none s = some (none, v, s)
  vfs_get_directory_contents fuel lookup type_of readdir v (some p) s =
      elim (vfs_resolve lookup v (some p)) [
        | none ↦ none
        | some (fails r, v') ↦ some (none, v', s)
        | some (value directory, v') ↦
            if not (type_of directory == 1) then some (none, v', s) else elim (readdir directory) [
              | none ↦ some (none, v', s)
              | some op ↦
                  if not (granted v')
                  then some (none, spend v', s)
                  else contents_loop fuel op 0 [] (spend v') s
            ]
      ]
