-- ===== src/Vfs/Mounts.antt =====
-- The file systems and the mounts of kernel/filesystem/VFS.c: `VFS_Init`, registration, `VFS_Mount`,
-- `VFS_MountAuto`, `VFS_Unmount` and `VFS_GetMount`. A driver is known by its address; what its
-- functions answer is a parameter.
pub mod Laws
pub mod Coherence
pub mod Keeps
pub mod Consistent
pub mod Rounds
use atom_os.Prelude.{
  ℕ, Bool, true, false, not, ◌&&◌, Option, none, some, List, [], ◌∷◌, ◌++◌, ◌==◌, if◌then◌else◌,
}
use atom_os.Vfs.Result.{VfsResult, Outcome, value, fails}
use atom_os.Vfs.Path.{slash, path_max, vfs_normalize_path}
use atom_os.Vfs.Text.{same_text}
use atom_os.Vfs.State.{Vfs, VfsMount, granted, spend, is_ok}
use atom_os.Vfs.Cache.{vfs_cache_remove_prefix, vfs_cache_insert}

pub record VfsMountParams : Type 0 where
  pub source : ℕ
  pub block_device : ℕ
  pub volume : ℕ
  pub context : ℕ
  pub flags : ℕ

-- The drivers: their names, and what is known of their operations. `has_mount` and the like say
-- whether the pointer is there.
pub record Drivers : Type 0 where
  pub name : ℕ → List ℕ
  pub has_mount : ℕ → Bool
  pub has_probe : ℕ → Bool
  pub has_unmount : ℕ → Bool
  pub probe : ℕ → VfsMountParams → Bool
  pub mount : ℕ → Option VfsMountParams → VfsResult × Option ℕ

unfoldable pub vfs_init : Vfs → Vfs
vfs_init v =
    if v.initialized
    then v
    else if not (granted v && granted (spend v))
    then spend (spend v)
    else if not (granted (spend (spend v)))
    then spend (spend (spend v))
    else record (spend (spend (spend v))) {
      initialized = true;
      filesystems = [];
      mounts = [];
      cache = [];
    }

-- `List_Add` drops the item where the node of the list cannot be allocated.
unfoldable pub add_mount : Vfs → VfsMount → Vfs
add_mount v m = if granted v then record (spend v) { mounts = v.mounts ++ m ∷ [] } else spend v

unfoldable pub add_filesystem : Vfs → ℕ → Vfs
add_filesystem v fs =
    if granted v then record (spend v) { filesystems = v.filesystems ++ fs ∷ [] } else spend v

-- `root->mount` and the flag `VFS_NODE_FLAG_MOUNTPOINT`, which no function of the file reads, are left out.
unfoldable pub vfs_attach_mount_to_tree : Vfs → VfsMount → Vfs
vfs_attach_mount_to_tree v m = record v { parents = λ n. if n == m.root then none else v.parents n }

-- The first mount of a path, with the mounts in front of it and those behind it.
unfoldable pub find_mount :
    List ℕ → List VfsMount → Option (List VfsMount × VfsMount × List VfsMount)
find_mount path [] = none
find_mount path (m ∷ ms) = elim (same_text m.path path) [
  | true ↦ some ([], m, ms)
  | false ↦ elim (find_mount path ms) [
    | none ↦ none
    | some (before, k, after) ↦ some (m ∷ before, k, after)
  ]
]

module _ (drivers : Drivers) where
  unfoldable pub vfs_get_filesystem : List ℕ → List ℕ → Option ℕ
  vfs_get_filesystem name [] = none
  vfs_get_filesystem name (fs ∷ rest) = elim (same_text (drivers.name fs) name) [
    | true ↦ some fs
    | false ↦ vfs_get_filesystem name rest
  ]

  unfoldable pub vfs_register_filesystem : Vfs → ℕ → VfsResult × Vfs
  vfs_register_filesystem v fs =
      if not (v.initialized && drivers.has_mount fs && drivers.has_probe fs)
      then (VfsResult.invalid, v)
      else elim (vfs_get_filesystem (drivers.name fs) v.filesystems) [
        | some other ↦ (VfsResult.exists, v)
        | none ↦ (VfsResult.ok, add_filesystem v fs)
      ]

  -- The driver unmounts what it has mounted, where it can.
  unfoldable pub undo_mount : Vfs → ℕ → ℕ → Vfs
  undo_mount v fs root =
      if drivers.has_unmount fs then record v { unmounted = (fs, root) ∷ v.unmounted } else v

  -- The mount goes on the list, and its node into the cache in place of what is below its path.
  unfoldable pub enter_mount : Vfs → VfsMount → Vfs
  enter_mount v m =
      let added = add_mount (vfs_attach_mount_to_tree v m) m in
      let rooted =
        if same_text m.path (slash ∷ []) then record added { root_mount = some m } else added in
      vfs_cache_insert (vfs_cache_remove_prefix rooted m.path) m.path m.root

  abbrev pub flags_of : Option VfsMountParams → ℕ
  flags_of none = 0
  flags_of (some p) = p.flags

  -- The struct is allocated, and then the copy of the path.
  unfoldable pub install_mount :
      Vfs → List ℕ → ℕ → Option VfsMountParams → ℕ → Option VfsMount × Vfs
  install_mount v path fs params root =
      if not (granted v)
      then (none, undo_mount (spend v) fs root)
      else if not (granted (spend v))
      then (none, undo_mount (spend (spend v)) fs root)
      else (let m : VfsMount = record {
        path = path;
        fs = fs;
        root = root;
        flags = flags_of params;
      } in
          (some m, enter_mount (spend (spend v)) m))

  -- What `VFS_Mount` does on a normal path.
  unfoldable pub mount_normal : Vfs → List ℕ → ℕ → Option VfsMountParams → Option VfsMount × Vfs
  mount_normal v path fs params = elim (find_mount path v.mounts) [
    | some found ↦ (none, v)
    | none ↦ elim (drivers.mount fs params).1 [
      | none ↦ (none, v)
      | some root ↦
          if not (is_ok (drivers.mount fs params).0)
          then (none, v)
          else install_mount v path fs params root
    ]
  ]

  unfoldable pub vfs_mount :
      Vfs → Option (List ℕ) → ℕ → Option VfsMountParams → Option (Option VfsMount × Vfs)
  vfs_mount v target fs params =
      if not (v.initialized && drivers.has_mount fs)
      then some (none, v)
      else elim (vfs_normalize_path target path_max) [
        | none ↦ none
        | some (fails r) ↦ some (none, v)
        | some (value path) ↦ some (mount_normal v path fs params)
      ]

  abbrev pub first_match : VfsMountParams → List ℕ → Option ℕ
  first_match params [] = none
  first_match params (fs ∷ rest) = elim (drivers.has_probe fs && drivers.probe fs params) [
    | true ↦ some fs
    | false ↦ first_match params rest
  ]

  unfoldable pub vfs_detect_filesystem : Vfs → Option VfsMountParams → Option ℕ
  vfs_detect_filesystem v none = none
  vfs_detect_filesystem v (some params) =
      if not v.initialized then none else first_match params v.filesystems

  -- The loop of `VFS_MountAuto`: it goes on where the mount does not succeed.
  unfoldable pub auto_loop : Vfs → List ℕ → VfsMountParams → List ℕ → Option (Option VfsMount × Vfs)
  auto_loop v target params [] = some (none, v)
  auto_loop v target params (fs ∷ rest) = elim (drivers.has_probe fs && drivers.probe fs params) [
    | false ↦ auto_loop v target params rest
    | true ↦ elim (vfs_mount v (some target) fs (some params)) [
      | none ↦ none
      | some (some m, v') ↦ some (some m, v')
      | some (none, v') ↦ auto_loop v' target params rest
    ]
  ]

  unfoldable pub vfs_mount_auto :
      Vfs → Option (List ℕ) → Option VfsMountParams → Option (Option VfsMount × Vfs)
  vfs_mount_auto v (some target) (some params) =
      if not v.initialized then some (none, v) else auto_loop v target params v.filesystems
  vfs_mount_auto v _ _ = some (none, v)

  -- What `VFS_Unmount` does on a normal path.
  unfoldable pub unmount_normal : Vfs → List ℕ → VfsResult × Vfs
  unmount_normal v path = elim (find_mount path v.mounts) [
    | none ↦ (VfsResult.not_found, v)
    | some (before, m, after) ↦ if same_text m.path (slash ∷ []) then (VfsResult.busy, v) else (
      VfsResult.ok,
      vfs_cache_remove_prefix (record (undo_mount v m.fs m.root) { mounts = before ++ after }) path,
    )
  ]

  unfoldable pub vfs_unmount : Vfs → Option (List ℕ) → Option (VfsResult × Vfs)
  vfs_unmount v target =
      if not v.initialized
      then some (VfsResult.invalid, v)
      else elim (vfs_normalize_path target path_max) [
        | none ↦ none
        | some (fails r) ↦ some (r, v)
        | some (value path) ↦ some (unmount_normal v path)
      ]

abbrev pub found_mount : Option (List VfsMount × VfsMount × List VfsMount) → Option VfsMount
found_mount none = none
found_mount (some (before, m, after)) = some m

unfoldable pub vfs_get_mount : Vfs → Option (List ℕ) → Option (Option VfsMount)
vfs_get_mount v target =
    if not v.initialized then some none else elim (vfs_normalize_path target path_max) [
      | none ↦ none
      | some (fails r) ↦ some none
      | some (value path) ↦ some (found_mount (find_mount path v.mounts))
    ]
