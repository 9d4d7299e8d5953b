-- ===== src/Vfs/State.antt =====
-- The state of kernel/filesystem/VFS.c: its static variables, and the parents of the nodes. A node and
-- a file system are known by their addresses. The lists are there as soon as `VFS_Init` has
-- succeeded. `mallocs` says which of the coming allocations succeed, and `unmounted` is the calls of
-- `ops->unmount` so far, the last one first.
use atom_os.Prelude.{ℕ, Bool, true, false, Option, List, [], ◌∷◌}
use atom_os.Vfs.Result.{VfsResult}

pub record VfsMount : Type 0 where
  pub path : List ℕ
  pub fs : ℕ
  pub root : ℕ
  pub flags : ℕ

pub record CacheEntry : Type 0 where
  pub path : List ℕ
  pub node : ℕ

pub record Vfs : Type 0 where
  pub initialized : Bool
  pub filesystems : List ℕ
  pub mounts : List VfsMount
  pub root_mount : Option VfsMount
  pub cache : List CacheEntry
  pub capacity : ℕ
  pub hits : ℕ
  pub misses : ℕ
  pub parents : ℕ → Option ℕ
  pub mallocs : List Bool
  pub unmounted : List (ℕ × ℕ)

-- The next allocation.
abbrev pub granted : Vfs → Bool
granted v = elim v.mallocs [ [] ↦ false | b ∷ m ↦ b ]

abbrev pub spend : Vfs → Vfs
spend v = record v { mallocs = elim v.mallocs [ [] ↦ [] | b ∷ m ↦ m ] }

-- `ops->lookup` of the nodes, where it is not NULL.
abbrev pub Lookup : Type 0
Lookup = ℕ → Option (List ℕ → VfsResult × Option ℕ)

abbrev pub is_ok : VfsResult → Bool
is_ok VfsResult.ok = true
is_ok _ = false
