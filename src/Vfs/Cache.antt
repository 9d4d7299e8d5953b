-- ===== src/Vfs/Cache.antt =====
-- The cache of resolved paths in kernel/filesystem/VFS.c: the most recently used entry first. A loop
-- that removes the entry at an index goes on at that index, which is the rest of the list.
pub mod Laws
pub mod Bounds
use atom_os.Prelude.{
  ℕ, zero, suc, ◌+◌, ◌-◌, Bool, true, false, not, ◌&&◌, ◌||◌, Option, none, some, List, [], ◌∷◌,
  ◌++◌, ltb, leb, ◌==◌, if◌then◌else◌, length, take, get_or,
}
use atom_os.Vfs.Path.{slash}
use atom_os.Vfs.Text.{same_text, has_prefix}
use atom_os.Vfs.State.{Vfs, CacheEntry, granted, spend}

abbrev pub cache_enabled : Vfs → Bool
cache_enabled v = v.initialized && ltb 0 v.capacity

unfoldable pub path_is_under : List ℕ → List ℕ → Bool
path_is_under path prefix =
    if length prefix == 0
    then false
    else if not (has_prefix path prefix)
    then false
    else if get_or path (length prefix) 0 == 0
    then true
    else if get_or prefix (length prefix - 1) 0 == slash
    then true
    else get_or path (length prefix) 0 == slash

unfoldable pub without_prefix : List ℕ → List CacheEntry → List CacheEntry
without_prefix prefix [] = []
without_prefix prefix (e ∷ es) =
    let rest = without_prefix prefix es in
    if not (path_is_under e.path prefix) then e ∷ rest else rest

unfoldable pub vfs_cache_remove_prefix : Vfs → List ℕ → Vfs
vfs_cache_remove_prefix v prefix = record v { cache = without_prefix prefix v.cache }

-- The first entry of a path, with the entries in front of it and those behind it.
unfoldable pub find_entry :
    List ℕ → List CacheEntry → Option (List CacheEntry × CacheEntry × List CacheEntry)
find_entry path [] = none
find_entry path (e ∷ es) = elim (same_text e.path path) [
  | true ↦ some ([], e, es)
  | false ↦ elim (find_entry path es) [
    | none ↦ none
    | some (before, f, after) ↦ some (e ∷ before, f, after)
  ]
]

-- The list without the entry that was found.
abbrev pub others_of :
    List CacheEntry → Option (List CacheEntry × CacheEntry × List CacheEntry) → List CacheEntry
others_of es none = es
others_of es (some (before, e, after)) = before ++ after

unfoldable pub vfs_cache_remove_exact : Vfs → List ℕ → Vfs
vfs_cache_remove_exact v path = record v { cache = others_of v.cache (find_entry path v.cache) }

-- `List_InsertAt` at the front: where the allocation of the list node fails, the list stays.
unfoldable pub push_front : Vfs → CacheEntry → Vfs
push_front v e = if granted v then record (spend v) { cache = e ∷ v.cache } else spend v

-- An entry that is not the first is taken out and put in front.
unfoldable pub found_entry : Vfs → List CacheEntry → CacheEntry → List CacheEntry → Vfs
found_entry v [] e after = record v { hits = v.hits + 1 }
found_entry v (f ∷ before) e after =
    let moved = push_front (record v { cache = (f ∷ before) ++ after }) e in
    record moved { hits = v.hits + 1 }

unfoldable pub vfs_cache_lookup : Vfs → List ℕ → Option ℕ × Vfs
vfs_cache_lookup v path =
    if not (cache_enabled v) then (none, v) else elim (find_entry path v.cache) [
      | none ↦ (none, record v { misses = v.misses + 1 })
      | some (before, e, after) ↦ (some e.node, found_entry v before e after)
    ]

-- The entry at the tail is removed.
abbrev pub drop_tail : List CacheEntry → List CacheEntry
drop_tail es = take (length es - 1) es

abbrev pub make_room : ℕ → List CacheEntry → List CacheEntry
make_room capacity es = if leb capacity (length es) then drop_tail es else es

-- The struct and the copy of the path are allocated, and then the list node.
unfoldable pub allocate_entry : Vfs → CacheEntry → Vfs
allocate_entry v e =
    if not (granted v)
    then spend v
    else if not (granted (spend v))
    then spend (spend v)
    else push_front (spend (spend v)) e

unfoldable pub vfs_cache_insert : Vfs → List ℕ → ℕ → Vfs
vfs_cache_insert v path node =
    if not (cache_enabled v)
    then v
    else allocate_entry
        (record v { cache = make_room v.capacity (others_of v.cache (find_entry path v.cache)) })
        (record { path = path; node = node })

unfoldable pub vfs_cache_clear : Vfs → Vfs
vfs_cache_clear v = record v { cache = [] }

-- Entries at the tail are removed as long as there are too many, once for each entry at most.
unfoldable pub trim_loop : ℕ → ℕ → List CacheEntry → List CacheEntry
trim_loop zero capacity es = es
trim_loop (suc fuel) capacity es =
    let rest = trim_loop fuel capacity (drop_tail es) in
    if ltb capacity (length es) then rest else es

unfoldable pub vfs_cache_trim_to_capacity : Vfs → Vfs
vfs_cache_trim_to_capacity v =
    if v.capacity == 0
    then vfs_cache_clear v
    else record v { cache = trim_loop (length v.cache) v.capacity v.cache }

unfoldable pub vfs_cache_set_capacity : Vfs → ℕ → Vfs
vfs_cache_set_capacity v capacity =
    let sized = record v { capacity = capacity } in
    if not sized.initialized
    then sized
    else if capacity == 0
    then vfs_cache_clear sized
    else vfs_cache_trim_to_capacity sized
