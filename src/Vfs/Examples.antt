-- ===== src/Vfs/Examples.antt =====
-- Runs of the handles, and of `VFS_Create` and `VFS_Remove`.
use atom_os.Prelude.{
  ℕ, ◌+◌, ◌≡◌, ◌==◌, if◌then◌else◌, refl, ap, subst, true, false, Option, none, some, List, [], ◌∷◌,
  arith,
}
use atom_os.Strings.{ℤ, IsString, strcmp, strcmp_loop, strncmp, strncmp_loop}
use atom_os.Vfs.Result.{VfsResult, value}
use atom_os.Vfs.State.{Vfs, Lookup}
use atom_os.Vfs.Path.{
  path_max, skip_slashes, segment, after_segment, put_segment, pop_segment, add_segment,
  normalize_loop, vfs_normalize_path,
}
use atom_os.Vfs.Path.Canon.{IsName, path_of}
use atom_os.Vfs.Handles.{VfsHandle, NodeOps, vfs_handle_can_read, advance, vfs_read}
use atom_os.Vfs.Text.{same_text, has_prefix}
use atom_os.Vfs.Cache.{path_is_under, vfs_cache_lookup, vfs_cache_insert}
use atom_os.Vfs.Resolve.{
  mount_matches, better, select_loop, vfs_select_mount, relative, below_mount, resolve_in, remember,
  vfs_walk, walk_loop, walk_segment, step_into, resolve_normal, vfs_resolve,
}
use atom_os.Vfs.Resolve.Laws.{Holds, Coherent}
use atom_os.Vfs.Listing.{VfsDirEntry, vfs_get_directory_contents}
use atom_os.Vfs.Listing.Laws.{vfs_get_directory_contents_lem}
use atom_os.Vfs.Entries.{typed, vfs_create, vfs_remove}
use atom_os.Vfs.Entries.Edits.{Edited, Kept, vfs_create_lem}
use atom_os.Vfs.Entries.Removal.{root_only, stored, removal_spares}

-- A driver that reads all that is asked for, counts the calls, and cannot write.
abbrev ops : NodeOps ℕ
ops = record {
  type_of = λ n. 2;
  flags_of = λ n. 0;
  open_node = λ n. none;
  close = λ n. none;
  read = λ n. some (λ d offset buffer size s. (ℤ.pos size, s + 1));
  write = λ n. none;
  truncate = λ n. none;
  stat = λ n. none;
}

abbrev reading : VfsHandle
reading = record { node = 5; driver_handle = 0; mode = 1; offset = 10 }

read_on : vfs_read ops reading (some 4096) 6 0 ≡ (ℤ.pos 6, record reading { offset = 16 }, 1)
unfolding vfs_read vfs_handle_can_read advance
read_on = refl

-- "/b" in a root directory.
abbrev path_b : List ℕ
path_b = 47 ∷ 98 ∷ []

abbrev bare : Lookup
bare node = none

abbrev fresh : Vfs
fresh = record {
  initialized = true;
  filesystems = 7 ∷ [];
  mounts = root_only ∷ [];
  root_mount = some root_only;
  cache = [];
  capacity = 2;
  hits = 0;
  misses = 0;
  parents = λ n. none;
  mallocs = [];
  unmounted = [];
}

-- Its cache has the root and the file "b".
abbrev seen : Vfs
seen = record fresh {
  cache = record { path = path_b; node = 2 } ∷ record { path = 47 ∷ []; node = 1 } ∷ [];
}

b-IsName : IsName (98 ∷ [])
b-IsName = record {
  nonempty = omega arith;
  short = omega arith;
  bytes = ((omega arith, omega arith), tt);
  no_dot = refl;
  no_dot_dot = refl;
}

seen-Coherent : Coherent (stored 0) seen
unfolding Holds resolve_in below_mount relative vfs_select_mount select_loop better mount_matches
    same_text has_prefix strcmp strcmp_loop strncmp strncmp_loop vfs_walk walk_loop walk_segment
    step_into skip_slashes segment after_segment
seen-Coherent = ((((98 ∷ []) ∷ [], refl, (b-IsName, tt)), refl), ((([], refl, tt), refl), tt))

-- The file is there already, and can be removed.
abbrev create_b : List ℕ → ℕ → ℕ → VfsResult × ℕ
create_b name type s = (VfsResult.exists, s)

abbrev remove_b : List ℕ → ℕ → VfsResult × ℕ
remove_b name s = (VfsResult.ok, 1)

abbrev create : ℕ → Option (List ℕ → ℕ → ℕ → VfsResult × ℕ)
create node = some create_b

abbrev remove : ℕ → Option (List ℕ → ℕ → VfsResult × ℕ)
remove node = some remove_b

abbrev state_after : Option (List ℕ → ℕ → VfsResult × ℕ) → ℕ
state_after none = 0
state_after (some f) = (f (98 ∷ []) 0).1

path_b-IsString : IsString path_b
path_b-IsString = (omega arith, (omega arith, tt))

normal_b : vfs_normalize_path (some path_b) path_max ≡ some (value path_b)
unfolding vfs_normalize_path normalize_loop add_segment put_segment pop_segment skip_slashes segment
    after_segment
normal_b = refl

vfs_create_lem_example :
    Edited ℕ stored seen 0 seen-Coherent
      (typed create 2)
      (path_of [])
      (98 ∷ [])
      (vfs_create stored create seen (some path_b) 2 0)
    × Edited ℕ stored seen 0 seen-Coherent remove
        (path_of [])
        (98 ∷ [])
        (vfs_remove stored remove seen (some path_b) 0)
vfs_create_lem_example =
    vfs_create_lem ℕ stored seen 0 seen-Coherent path_b [] (98 ∷ []) path_b-IsString tt b-IsName
      refl normal_b create remove 2 (omega arith)
      (λ parent f e r.
        subst (λ k. Kept (stored 0) (stored k) seen (λ q. Unit)) (ap state_after e)
          (λ q node i p h. h))
      (λ parent f e r.
        subst (λ k. Kept (stored 0) (stored k) seen (λ q. path_is_under q path_b ≡ false))
          (ap state_after e) (removal_spares seen.parents))

-- A root directory with two entries; `s` counts the calls.
abbrev first_entry : VfsDirEntry
first_entry = record { name = 97 ∷ []; type = 2 }

abbrev second_entry : VfsDirEntry
second_entry = record { name = 98 ∷ []; type = 1 }

abbrev list_root : ℕ → ℕ → VfsResult × VfsDirEntry × ℕ
list_root index s =
    if index == 0
    then (VfsResult.ok, first_entry, s + 1)
    else if index == 1
    then (VfsResult.ok, second_entry, s + 1)
    else (VfsResult.not_found, first_entry, s + 1)

abbrev roomy : Vfs
roomy = record fresh { mallocs = true ∷ true ∷ true ∷ true ∷ true ∷ true ∷ []; capacity = 0 }

root_found : vfs_resolve bare roomy (some (47 ∷ [])) ≡ some (value 1, roomy)
unfolding vfs_resolve resolve_normal remember resolve_in below_mount relative vfs_select_mount
    select_loop better mount_matches vfs_cache_lookup vfs_cache_insert same_text has_prefix strcmp
    strcmp_loop strncmp strncmp_loop vfs_normalize_path normalize_loop skip_slashes
root_found = refl

vfs_get_directory_contents_lem_example :
    (u : Vfs) × (s' : ℕ) × (vfs_get_directory_contents 3 bare
        (λ n. 1)
        (λ n. some list_root)
        roomy
        (some (47 ∷ []))
        0
      ≡ some (some (first_entry ∷ second_entry ∷ []), u, s'))
vfs_get_directory_contents_lem_example =
    vfs_get_directory_contents_lem 3 bare (λ n. 1) (λ n. some list_root) roomy roomy (47 ∷ []) 0 1
      list_root (first_entry ∷ second_entry ∷ []) root_found refl refl refl
      (refl, refl, (refl, refl, refl)) (refl, refl, (refl, refl, refl)) (omega arith)
