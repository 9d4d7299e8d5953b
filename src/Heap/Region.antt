-- ===== src/Heap/Region.antt =====
-- `initRegion`, `alloc_region` and `free_region` of kernel/memory/heap.c. The loops over the nodes
-- run on fuel; `none` means that it ran out.
pub mod Chain
pub mod Alloc
pub mod Merge
pub mod Free
pub mod Laws
use atom_os.Prelude.{
  ℕ, zero, suc, ◌+◌, ◌*◌, Bool, true, false, ◌&&◌, ◌||◌, not, Option, none, some, ltb, leb, ◌==◌,
  if◌then◌else◌, add64, sub64,
}
use atom_os.Heap.Node.{HeapNode, Store, heap_magic, header, min_size, put, node_size}

pub record HeapRegion : Type 0 where
  pub base : ℕ
  pub size : ℕ

pub init_region : HeapRegion → Store → Store
init_region region h =
    if region.base == 0 || region.size == 0
    then h
    else if ltb region.size (2 * header)
    then h
    else let end_node = sub64 (add64 region.base region.size) header in
      put (put h region.base (record { magic = heap_magic; is_free = true; next = end_node }))
        end_node (record { magic = 0; is_free = false; next = 0 })

-- The block of `node` is handed out: split, if what remains can hold a node of its own.
pub take_node : Store → ℕ → ℕ → Store
take_node h node size =
    if leb (min_size + header) (sub64 (node_size h node) size)
    then (let new_node = add64 (add64 node size) header in
        let split =
          put h new_node (record { magic = heap_magic; is_free = true; next = (h node).next }) in
        put split node (record { magic = (h node).magic; is_free = false; next = new_node }))
    else put h node (record (h node) { is_free = false })

-- The loop ends at NULL, and at a node without the magic number.
abbrev pub at_end : Store → ℕ → Bool
at_end h node = node == 0 || not ((h node).magic == heap_magic)

pub alloc_loop : ℕ → Store → ℕ → ℕ → Option (Option ℕ × Store)
alloc_loop zero h node size = none
alloc_loop (suc fuel) h node size = elim (at_end h node) [
  | true ↦ some (none, h)
  | false ↦ elim ((h node).is_free && leb size (node_size h node)) [
    | true ↦ some (some (add64 node header), take_node h node size)
    | false ↦ alloc_loop fuel h (h node).next size
  ]
]

-- `node` takes in the node behind it, if that is free.
pub join_next : Store → ℕ → Store
join_next h node =
    let next = (h node).next in
    if not (next == 0) && (h next).is_free
    then put h node (record (h node) { next = (h next).next })
    else h

-- The node in front, if there is one and it is free, takes `node` in.
pub join_prev : Store → ℕ → ℕ → Store
join_prev h node prev =
    if not (prev == 0) && (h prev).is_free
    then put h prev (record { magic = heap_magic; is_free = true; next = (h node).next })
    else h

-- The block of `node` becomes free.
pub release_node : Store → ℕ → ℕ → Store
release_node h node prev =
    join_prev (join_next (put h node (record (h node) { is_free = true })) node) node prev

pub free_loop : ℕ → Store → ℕ → ℕ → ℕ → Option (Bool × Store)
free_loop zero h node prev ptr = none
free_loop (suc fuel) h node prev ptr = elim (at_end h node) [
  | true ↦ some (false, h)
  | false ↦ elim (ltb node ptr && ltb ptr (h node).next) [
    | true ↦ some (true, release_node h node prev)
    | false ↦ free_loop fuel h (h node).next node ptr
  ]
]

-- A region has fewer nodes than bytes.
pub alloc_region : Store → HeapRegion → ℕ → Option (Option ℕ × Store)
alloc_region h region size = alloc_loop region.size h region.base size

pub free_region : Store → HeapRegion → ℕ → Option (Bool × Store)
free_region h region ptr =
    if ptr == 0 then some (false, h) else free_loop region.size h region.base 0 ptr
