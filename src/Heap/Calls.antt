-- ===== src/Heap/Calls.antt =====
-- The heap's calls of kernel/memory/heap.c, over the list of its regions: `heap_init`,
-- `heap_alloc` with its growth, `heap_free` and `heap_register_region`. `pmm_alloc` calls `malloc`
-- in turn, so that it is an argument here, a step on the heap. `none` stands for a loop that runs
-- out of fuel, and for a write through NULL.
pub mod Chart
pub mod Alloc
pub mod Free
pub mod Laws
pub mod Register
use atom_os.Prelude.{
  ◌||◌, ◌*◌, ltb, ℕ, ◌+◌, ◌-◌, ◌/◌, ◌%◌, Bool, true, false, Option, none, some, List, [], ◌∷◌, ◌++◌,
  ◌==◌, if◌then◌else◌, add64,
}
use atom_os.Heap.Node.{Store, header}
use atom_os.Heap.Region.{HeapRegion, init_region, alloc_region, free_region}

-- The nodes, and the regions from `first_heap_region` on, in the order of their links.
pub record KernelHeap : Type 0 where
  pub store : Store
  pub regions : List HeapRegion

-- What a call does: an answer, `none` for NULL, and the heap after it.
abbrev pub Outcome : Type 0
Outcome = Option (Option ℕ × KernelHeap)

-- `sizeof(HeapRegion)`.
abbrev pub region_struct : ℕ
region_struct = 24

-- The loop of `heap_alloc` over the regions.
unfoldable pub alloc_in : Store → List HeapRegion → ℕ → Option (Option ℕ × Store)
alloc_in h [] n = some (none, h)
alloc_in h (r ∷ rs) n = elim (alloc_region h r n) [
  | none ↦ none
  | some (none, h') ↦ alloc_in h' rs n
  | some (some p, h') ↦ some (some p, h')
]

-- The loop of `heap_free` over the regions.
unfoldable pub free_in : Store → List HeapRegion → ℕ → Option Store
free_in h [] ptr = some h
free_in h (r ∷ rs) ptr = elim (free_region h r ptr) [
  | none ↦ none
  | some (false, h') ↦ free_in h' rs ptr
  | some (true, h') ↦ some h'
]

-- The size that a region of growth has for a request of `n` bytes.
unfoldable pub region_size : ℕ → ℕ
region_size n = add64 (add64 n (4096 - n % 4096)) 0x1000

-- The new region is set up, its own struct is allocated in it, it is linked in at the end of the
-- list, and `n` bytes are allocated in it.
unfoldable pub link_region : KernelHeap → HeapRegion → ℕ → Outcome
link_region k region n = elim (alloc_region (init_region region k.store) region region_struct) [
  | none ↦ none
  | some (none, h) ↦ none
  | some (some p, h) ↦ elim (alloc_region h region n) [
    | none ↦ none
    | some (ret, h') ↦ some (ret, record { store = h'; regions = k.regions ++ region ∷ [] })
  ]
]

module _ (local_heap : HeapRegion) where
  unfoldable pub heap_init : KernelHeap → KernelHeap
  heap_init k = record { store = init_region local_heap k.store; regions = local_heap ∷ [] }

  -- `heap_init` is called where there is no region yet.
  unfoldable pub ready : KernelHeap → KernelHeap
  ready k = elim k.regions [ [] ↦ heap_init k | r ∷ rs ↦ k ]

  unfoldable pub heap_free : KernelHeap → ℕ → Option KernelHeap
  heap_free k ptr =
      if ptr == 0 then some k else elim (free_in (ready k).store (ready k).regions ptr) [
        | none ↦ none
        | some h ↦ some (record { store = h; regions = (ready k).regions })
      ]

  module _ (has_memory_regions : Bool)
      (pmm_alloc : ℕ → KernelHeap → Option (Option ℕ × KernelHeap)) where
    -- What `heap_alloc` does when no region has room.
    unfoldable pub grow : KernelHeap → ℕ → Outcome
    grow k n = elim has_memory_regions [
      | false ↦ some (none, k)
      | true ↦ elim (pmm_alloc (region_size n / 1024) k) [
        | none ↦ none
        | some (none, k') ↦ some (none, k')
        | some (some base, k') ↦ link_region k' (record { base = base; size = region_size n }) n
      ]
    ]

    unfoldable pub heap_alloc : KernelHeap → ℕ → Outcome
    heap_alloc k n =
        if n == 0 then some (none, k) else elim (alloc_in (ready k).store (ready k).regions n) [
          | none ↦ none
          | some (some p, h) ↦ some (some p, record { store = h; regions = (ready k).regions })
          | some (none, h) ↦ grow (record { store = h; regions = (ready k).regions }) n
        ]

-- `heap_register_region`: the new region is set up, and becomes what the first region links to.
-- `none` is a write through NULL, where there is no first region.
unfoldable pub heap_register_region : KernelHeap → HeapRegion → Option KernelHeap
heap_register_region k region =
    if region.base == 0 || region.size == 0
    then some k
    else if ltb region.size (2 * header)
    then some k
    else elim k.regions [
      | [] ↦ none
      | r ∷ rs ↦ some (record { store = init_region region k.store; regions = r ∷ region ∷ [] })
    ]
