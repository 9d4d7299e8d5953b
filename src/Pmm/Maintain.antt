-- ===== src/Pmm/Maintain.antt =====
-- `pmm_maintain` of kernel/memory/pmm.c: neighbours in the list that are both usable and that
-- touch or overlap become one region. `List_Remove` takes out the node of `next`, whose struct is
-- no other node's.
pub mod Laws
use atom_os.Prelude.{◌&&◌, Bool, true, false, List, [], ◌∷◌, ltb, leb, if◌then◌else◌, sub64}
use atom_os.Pmm.Region.{MemoryRegion, region_end, is_usable}

-- The test that the loop makes of `current` and `next`.
unfoldable pub mergeable : MemoryRegion → MemoryRegion → Bool
mergeable current next =
    is_usable current.type && is_usable next.type && leb next.base (region_end current)

-- `current` grown to the range that holds both; `pmm_free` merges by the same lines.
unfoldable pub span : MemoryRegion → MemoryRegion → MemoryRegion
span current next =
    let new_base = if ltb current.base next.base then current.base else next.base in
    let new_end =
      if ltb (region_end next) (region_end current) then region_end current else region_end next in
    record current { base = new_base; size = sub64 new_end new_base }

-- The loop at the node of `current`, with the nodes behind it.
maintain_from : MemoryRegion → List MemoryRegion → List MemoryRegion
maintain_from current [] = current ∷ []
maintain_from current (next ∷ rest) = elim (mergeable current next) [
  | true ↦ maintain_from (span current next) rest
  | false ↦ current ∷ maintain_from next rest
]

unfoldable pub pmm_maintain : List MemoryRegion → List MemoryRegion
unfolding maintain_from mergeable span
pmm_maintain [] = []
pmm_maintain (r ∷ rs) = maintain_from r rs
