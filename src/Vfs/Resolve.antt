-- ===== src/Vfs/Resolve.antt =====
-- `vfs_select_mount`, `vfs_walk` and `VFS_Resolve` of kernel/filesystem/VFS.c.
pub mod Select
pub mod Longest
pub mod Walk
pub mod Below
pub mod Laws
use atom_os.Prelude.{
  ℕ, zero, suc, ◌+◌, Bool, true, false, not, ◌&&◌, ◌||◌, Option, none, some, List, [], ◌∷◌, ltb,
  leb, ◌==◌, if◌then◌else◌, length, drop, get_or,
}
use atom_os.Vfs.Result.{VfsResult, Outcome, value, fails}
use atom_os.Vfs.Path.{
  slash, name_max, path_max, is_dot, is_dot_dot, skip_slashes, segment, after_segment,
  vfs_normalize_path,
}
use atom_os.Vfs.Text.{same_text, has_prefix}
use atom_os.Vfs.State.{Vfs, VfsMount, Lookup, is_ok}
use atom_os.Vfs.Cache.{vfs_cache_lookup, vfs_cache_insert}

-- The tests by which the loop of `vfs_select_mount` passes over a mount.
unfoldable pub mount_matches : List ℕ → VfsMount → Bool
mount_matches path m =
    not (ltb (length path) (length m.path))
    && has_prefix path m.path
    && (length m.path == 1
        || get_or path (length m.path) 0 == 0
        || get_or path (length m.path) 0 == slash)

-- A longer mount path takes the place of the best one so far.
unfoldable pub better : List ℕ → Option VfsMount → VfsMount → Option VfsMount
better path best m = if not (mount_matches path m) then best else elim best [
  | none ↦ some m
  | some b ↦ if ltb (length b.path) (length m.path) then some m else some b
]

unfoldable pub select_loop : List ℕ → Option VfsMount → List VfsMount → Option VfsMount
select_loop path best [] = best
select_loop path best (m ∷ ms) = select_loop path (better path best m) ms

unfoldable pub vfs_select_mount : List VfsMount → List ℕ → Option VfsMount
vfs_select_mount mounts path = select_loop path none mounts

-- `if (*rel == '/') rel++;`
abbrev pub skip_one : List ℕ → List ℕ
skip_one [] = []
skip_one (c ∷ p) = if c == slash then p else c ∷ p

-- The path below the mount.
unfoldable pub relative : VfsMount → List ℕ → List ℕ
relative m path =
    if same_text m.path (slash ∷ []) then skip_one path else skip_one (drop (length m.path) path)

abbrev pub looked_up : VfsResult → Option ℕ → Outcome ℕ
looked_up res none = fails VfsResult.not_found
looked_up res (some next) = if is_ok res then value next else fails VfsResult.not_found

module _ (lookup : Lookup) where
  -- The driver's answer for one name below the node.
  unfoldable pub step_into : ℕ → List ℕ → Outcome ℕ
  step_into node name = elim (lookup node) [
    | none ↦ fails VfsResult.unsupported
    | some op ↦ looked_up (op name).0 (op name).1
  ]

  -- What the loop of `vfs_walk` does with one segment.
  unfoldable pub walk_segment : (ℕ → Option ℕ) → ℕ → List ℕ → Outcome ℕ
  walk_segment parents node s =
      if ltb name_max (length s)
      then fails VfsResult.invalid
      else if is_dot s
      then value node
      else if is_dot_dot s
      then value (elim (parents node) [ none ↦ node | some up ↦ up ])
      else step_into node s

  -- The loop, with the slashes in front skipped; `none` means that it runs out of fuel.
  unfoldable pub walk_loop : ℕ → (ℕ → Option ℕ) → ℕ → List ℕ → Option (Outcome ℕ)
  walk_loop zero parents node p = none
  walk_loop (suc fuel) parents node [] = some (value node)
  walk_loop (suc fuel) parents node (c ∷ q) = elim (walk_segment parents node (segment (c ∷ q))) [
    | fails r ↦ some (fails r)
    | value next ↦ walk_loop fuel parents next (skip_slashes (after_segment (c ∷ q)))
  ]

  -- A path has fewer segments than bytes.
  unfoldable pub vfs_walk : (ℕ → Option ℕ) → ℕ → List ℕ → Option (Outcome ℕ)
  vfs_walk parents start path = walk_loop (suc (length path)) parents start (skip_slashes path)

  -- The node below the mount.
  unfoldable pub below_mount : (ℕ → Option ℕ) → VfsMount → List ℕ → Option (Outcome ℕ)
  below_mount parents m path = elim (relative m path) [
    | [] ↦ some (value m.root)
    | c ∷ rel ↦ vfs_walk parents m.root (c ∷ rel)
  ]

  -- The node of a normal path, with no look at the cache.
  unfoldable pub resolve_in : List VfsMount → (ℕ → Option ℕ) → List ℕ → Option (Outcome ℕ)
  resolve_in mounts parents path = elim (vfs_select_mount mounts path) [
    | none ↦ some (fails VfsResult.not_found)
    | some m ↦ below_mount parents m path
  ]

  -- What is found goes into the cache.
  unfoldable pub remember : Vfs → List ℕ → Option (Outcome ℕ) → Option (Outcome ℕ × Vfs)
  remember v path none = none
  remember v path (some (fails r)) = some (fails r, v)
  remember v path (some (value node)) = some (value node, vfs_cache_insert v path node)

  unfoldable pub resolve_normal : Vfs → List ℕ → Option (Outcome ℕ × Vfs)
  resolve_normal v path =
      let (cached, v') = vfs_cache_lookup v path in
      elim cached [
        | some node ↦ some (value node, v')
        | none ↦ remember v' path (resolve_in v'.mounts v'.parents path)
      ]

  unfoldable pub vfs_resolve : Vfs → Option (List ℕ) → Option (Outcome ℕ × Vfs)
  vfs_resolve v path = if not v.initialized then some (fails VfsResult.invalid, v) else elim path [
    | none ↦ some (fails VfsResult.invalid, v)
    | some p ↦ elim v.root_mount [
      | none ↦ some (fails VfsResult.not_found, v)
      | some m ↦ elim (vfs_normalize_path (some p) path_max) [
        | none ↦ none
        | some (fails r) ↦ some (fails r, v)
        | some (value normal) ↦ resolve_normal v normal
      ]
    ]
  ]
