-- ===== src/Vfs/Entries.antt =====
-- `VFS_Create` and `VFS_Remove` of kernel/filesystem/VFS.c. What the drivers keep is a type `S`.
pub mod Laws
pub mod Edits
pub mod Removal
use atom_os.Prelude.{
  ℕ, ◌+◌, Bool, true, false, not, Option, none, some, List, [], ◌∷◌, ltb, leb, ◌==◌, if◌then◌else◌,
  length, take, drop,
}
use atom_os.Strings.Last.{strrchr}
use atom_os.Vfs.Result.{VfsResult, Outcome, value, fails}
use atom_os.Vfs.Path.{slash, name_max, path_max, vfs_normalize_path}
use atom_os.Vfs.Text.{same_text}
use atom_os.Vfs.State.{Vfs, Lookup}
use atom_os.Vfs.Cache.{vfs_cache_remove_exact, vfs_cache_remove_prefix}
use atom_os.Vfs.Resolve.{vfs_resolve}

-- The path of the directory, and the name in it.
abbrev pub name_at : ℕ → List ℕ → Outcome (List ℕ × List ℕ)
name_at last_sep path =
    if length (drop (last_sep + 1) path) == 0
    then fails VfsResult.invalid
    else if ltb name_max (length (drop (last_sep + 1) path))
    then fails VfsResult.invalid
    else if last_sep == 0
    then value (slash ∷ [], drop (last_sep + 1) path)
    else if leb path_max last_sep
    then fails VfsResult.no_space
    else value (take last_sep path, drop (last_sep + 1) path)

unfoldable pub split_path : List ℕ → Outcome (List ℕ × List ℕ)
split_path path = elim (strrchr (some path) slash) [
  | none ↦ fails VfsResult.invalid
  | some last_sep ↦ name_at last_sep path
]

-- The directory's `create`, for nodes of one type.
abbrev pub typed :
    {S : Type 0}
    → (ℕ → Option (List ℕ → ℕ → S → VfsResult × S))
    → ℕ
    → ℕ
    → Option (List ℕ → S → VfsResult × S)
typed create type node = elim (create node) [ none ↦ none | some f ↦ some (λ name. f name type) ]

-- `lookup` is what the drivers answer in each of their states.
module _ {S : Type 0} (lookup : S → Lookup) where
  -- `op` is what the directory's node offers for a name; `forget` removes paths from the cache.
  unfoldable pub edit_entry :
      (ℕ → Option (List ℕ → S → VfsResult × S))
      → (Vfs → Vfs)
      → Vfs
      → List ℕ
      → S
      → Option (VfsResult × Vfs × S)
  edit_entry op forget v path s = elim (split_path path) [
    | fails r ↦ some (r, v, s)
    | value (parent_path, name) ↦ elim (vfs_resolve (lookup s) v (some parent_path)) [
      | none ↦ none
      | some (fails r, v') ↦ some (r, v', s)
      | some (value parent, v') ↦ elim (op parent) [
        | none ↦ some (VfsResult.unsupported, v', s)
        | some f ↦ some ((f name s).0, forget v', (f name s).1)
      ]
    ]
  ]

  unfoldable pub vfs_create :
      (ℕ → Option (List ℕ → ℕ → S → VfsResult × S))
      → Vfs
      → Option (List ℕ)
      → ℕ
      → S
      → Option (VfsResult × Vfs × S)
  vfs_create create v none type s = some (VfsResult.invalid, v, s)
  vfs_create create v (some p) type s =
      if type == 0
      then some (VfsResult.invalid, v, s)
      else if not v.initialized
      then some (VfsResult.error, v, s)
      else elim (vfs_normalize_path (some p) path_max) [
        | none ↦ none
        | some (fails r) ↦ some (r, v, s)
        | some (value path) ↦
            if same_text path (slash ∷ [])
            then some (VfsResult.exists, v, s)
            else edit_entry (typed create type) (λ v'. vfs_cache_remove_exact v' path) v path s
      ]

  unfoldable pub vfs_remove :
      (ℕ → Option (List ℕ → S → VfsResult × S))
      → Vfs
      → Option (List ℕ)
      → S
      → Option (VfsResult × Vfs × S)
  vfs_remove remove v none s = some (VfsResult.invalid, v, s)
  vfs_remove remove v (some p) s =
      if not v.initialized
      then some (VfsResult.error, v, s)
      else elim (vfs_normalize_path (some p) path_max) [
        | none ↦ none
        | some (fails r) ↦ some (r, v, s)
        | some (value path) ↦
            if same_text path (slash ∷ [])
            then some (VfsResult.busy, v, s)
            else edit_entry remove (λ v'. vfs_cache_remove_prefix v' path) v path s
      ]
