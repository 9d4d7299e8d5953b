-- ===== src/Vfs/Tests.antt =====
-- Runs of the virtual file system on a root mount with one cached path.
use atom_os.Prelude.{
  ℕ, ◌≡◌, ◌⊎◌, refl, true, false, Option, none, some, List, [], ◌∷◌, arith, if◌then◌else◌, ◌==◌,
}
use atom_os.Strings.{IsString, strcmp, strcmp_loop, strncmp, strncmp_loop}
use atom_os.Vfs.Result.{VfsResult, value}
use atom_os.Vfs.State.{Vfs, VfsMount, CacheEntry, Lookup, spend}
use atom_os.Vfs.Text.{same_text, has_prefix}
use atom_os.Vfs.Path.{
  slash, skip_slashes, segment, after_segment, put_segment, pop_segment, add_segment,
  normalize_loop, vfs_normalize_path,
}
use atom_os.Vfs.Path.Canon.{IsName}
use atom_os.Vfs.Cache.{
  path_is_under, without_prefix, find_entry, push_front, allocate_entry, vfs_cache_insert,
  vfs_cache_remove_prefix,
}
use atom_os.Vfs.Resolve.{
  mount_matches, better, select_loop, vfs_select_mount, relative, step_into, walk_segment,
  walk_loop, vfs_walk, below_mount, resolve_in, vfs_resolve,
}
use atom_os.Vfs.Resolve.Longest.{Longest, vfs_select_mount-Longest}
use atom_os.Vfs.Resolve.Laws.{Holds, Answers, resolve_plain, vfs_resolve-resolve_plain}
use atom_os.Vfs.Mounts.{
  Drivers, add_mount, vfs_attach_mount_to_tree, find_mount, enter_mount, install_mount,
  mount_normal, vfs_mount, vfs_unmount,
}
use atom_os.Vfs.Mounts.Laws.{Mounted, vfs_mount-Mounted}
use atom_os.Vfs.Mounts.Keeps.{IsConsistent}
use atom_os.Vfs.Mounts.Consistent.{vfs_mount-IsConsistent, vfs_unmount-IsConsistent}
use atom_os.Vfs.Mounts.Rounds.{vfs_unmount-vfs_mount, vfs_resolve-vfs_mount}

-- "/", "/a" and "/b".
abbrev root_path : List ℕ
root_path = 47 ∷ []

abbrev path_a : List ℕ
path_a = 47 ∷ 97 ∷ []

abbrev path_b : List ℕ
path_b = 47 ∷ 98 ∷ []

-- The node 1 has the node 5 below it, under every name; the others are files.
abbrev tree : Lookup
tree node = if node == 1 then some (λ name. (VfsResult.ok, some 5)) else none

abbrev root_mounted : VfsMount
root_mounted = record { path = root_path; fs = 7; root = 1; flags = 0 }

abbrev cached_a : CacheEntry
cached_a = record { path = path_a; node = 5 }

abbrev running : Vfs
running = record {
  initialized = true;
  filesystems = 7 ∷ [];
  mounts = root_mounted ∷ [];
  root_mount = some root_mounted;
  cache = cached_a ∷ [];
  capacity = 2;
  hits = 0;
  misses = 0;
  parents = λ n. none;
  mallocs = true ∷ true ∷ true ∷ true ∷ true ∷ true ∷ [];
  unmounted = [];
}

abbrev drivers : Drivers
drivers = record {
  name = λ fs. 114 ∷ [];
  has_mount = λ fs. true;
  has_probe = λ fs. true;
  has_unmount = λ fs. true;
  probe = λ fs params. true;
  mount = λ fs params. (VfsResult.ok, some 9);
}

path_a-IsString : IsString path_a
path_a-IsString = (omega arith, (omega arith, tt))

path_b-IsString : IsString path_b
path_b-IsString = (omega arith, (omega arith, tt))

a-IsName : IsName (97 ∷ [])
a-IsName = record {
  nonempty = omega arith;
  short = omega arith;
  bytes = ((omega arith, omega arith), tt);
  no_dot = refl;
  no_dot_dot = refl;
}

cached_a-Holds : Holds tree running.mounts running.parents cached_a
unfolding Holds resolve_in vfs_select_mount select_loop better mount_matches has_prefix strncmp
    strncmp_loop below_mount relative same_text strcmp strcmp_loop vfs_walk walk_loop walk_segment
    step_into skip_slashes segment after_segment
cached_a-Holds = (((97 ∷ []) ∷ [], refl, (a-IsName, tt)), refl)

running-IsConsistent : IsConsistent tree running
running-IsConsistent = record {
  normal = (([], refl, tt), tt);
  distinct = (tt, tt);
  coherent = (cached_a-Holds, tt);
}

vfs_resolve-resolve_plain_example :
    Answers tree running
      (resolve_plain tree running (some path_a))
      (vfs_resolve tree running (some path_a))
vfs_resolve-resolve_plain_example =
    vfs_resolve-resolve_plain tree running (some path_a) (cached_a-Holds, tt) path_a-IsString

vfs_mount-IsConsistent_example :
    (o : Option VfsMount) × (w : Vfs) × (vfs_mount drivers running (some path_b) 7 none
      ≡ some (o, w))
    × IsConsistent tree w
vfs_mount-IsConsistent_example =
    vfs_mount-IsConsistent tree drivers running running-IsConsistent path_b 7 none path_b-IsString
      refl

vfs_unmount-IsConsistent_example :
    (r : VfsResult) × (w : Vfs) × (vfs_unmount drivers running (some path_b) ≡ some (r, w))
    × IsConsistent tree w
vfs_unmount-IsConsistent_example =
    vfs_unmount-IsConsistent tree drivers running running-IsConsistent path_b path_b-IsString

vfs_mount-Mounted_example :
    (o : Option VfsMount) × (w : Vfs) × (vfs_mount drivers running (some path_b) 7 none
      ≡ some (o, w))
    × Mounted drivers running 7 none path_b o w
vfs_mount-Mounted_example = vfs_mount-Mounted drivers running 7 none path_b path_b-IsString

abbrev mounted_b : VfsMount
mounted_b = record { path = path_b; fs = 7; root = 9; flags = 0 }

abbrev after_b : Vfs
after_b = enter_mount drivers (spend (spend running)) mounted_b

mounts_b : vfs_mount drivers running (some path_b) 7 none ≡ some (some mounted_b, after_b)
unfolding vfs_mount vfs_normalize_path normalize_loop add_segment put_segment pop_segment
    skip_slashes segment after_segment mount_normal find_mount install_mount same_text strcmp
    strcmp_loop
mounts_b = refl

vfs_unmount-vfs_mount_example :
    ((same_text path_b (slash ∷ []) ≡ true)
      × (vfs_unmount drivers after_b (some path_b) ≡ some (VfsResult.busy, after_b)))
    ⊎ ((same_text path_b (slash ∷ []) ≡ false)
        × ((u : Vfs) × (vfs_unmount drivers after_b (some path_b) ≡ some (VfsResult.ok, u))
            × (u.mounts ≡ running.mounts)))
vfs_unmount-vfs_mount_example =
    vfs_unmount-vfs_mount drivers running 7 none path_b path_b-IsString refl mounted_b after_b
      mounts_b

root_after_b : after_b.root_mount ≡ some root_mounted
unfolding enter_mount add_mount vfs_attach_mount_to_tree vfs_cache_remove_prefix without_prefix
    path_is_under has_prefix strncmp strncmp_loop vfs_cache_insert find_entry allocate_entry
    push_front same_text strcmp strcmp_loop
root_after_b = refl

vfs_resolve-vfs_mount_example :
    (u : Vfs) × (vfs_resolve tree after_b (some path_b) ≡ some (value 9, u))
vfs_resolve-vfs_mount_example =
    vfs_resolve-vfs_mount drivers running 7 none path_b path_b-IsString refl mounted_b after_b
      mounts_b tree running-IsConsistent root_mounted root_after_b

vfs_select_mount-Longest_example :
    Longest path_b
      (vfs_select_mount (root_mounted ∷ mounted_b ∷ []) path_b)
      (root_mounted ∷ mounted_b ∷ [])
vfs_select_mount-Longest_example = vfs_select_mount-Longest path_b (root_mounted ∷ mounted_b ∷ [])
