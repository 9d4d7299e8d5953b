-- ===== src/Pmm/Free.antt =====
-- `pmm_free` of kernel/memory/pmm.c. The list is taken apart at the freed region, since the loop
-- compares every other node with it; `List_Remove` takes out the node of the region that was
-- merged, whose struct is no other node's.
pub mod Absorb
pub mod Laws
mod Tests
use atom_os.Prelude.{
  ℕ, suc, zero, ◌+◌, ◌*◌, ◌/◌, Bool, true, false, ◌&&◌, ◌||◌, not, Option, none, some, List, [],
  ◌∷◌, ◌++◌, ltb, ◌==◌, if◌then◌else◌, length, add64,
}
use atom_os.Pmm.Region.{MemoryRegion, RegionType, region_end, is_usable}
use atom_os.Pmm.Maintain.{span}

-- One round of the scan at the region `mr`: what `freed` becomes if it takes `mr` in.
pub join : MemoryRegion → MemoryRegion → Option MemoryRegion
join freed mr =
    if not (is_usable mr.type)
    then none
    else if not (ltb (region_end freed) mr.base || ltb (region_end mr) freed.base)
    then some (span freed mr)
    else if region_end mr == freed.base
    then some (record freed { base = mr.base; size = add64 freed.size mr.size })
    else if region_end freed == mr.base
    then some (record freed { size = add64 freed.size mr.size })
    else none

-- The scan of a stretch of the list up to the first region that is taken in: `freed` as it is
-- then, and the stretch without that region.
pub absorb : MemoryRegion → List MemoryRegion → Option (MemoryRegion × List MemoryRegion)
absorb freed [] = none
absorb freed (mr ∷ rest) = elim (join freed mr) [
  | some grown ↦ some (grown, rest)
  | none ↦ elim (absorb freed rest) [ some (grown, rest') ↦ some (grown, mr ∷ rest') | none ↦ none ]
]

-- The `do … while (merged)` loop, with the regions before and behind `freed`. Each round but the
-- last takes a region out of the list.
pub merge_loop :
    ℕ → List MemoryRegion → MemoryRegion → List MemoryRegion → Option (List MemoryRegion)
merge_loop zero before freed after = none
merge_loop (suc fuel) before freed after = elim (absorb freed before) [
  | some (grown, before') ↦ merge_loop fuel before' grown after
  | none ↦ elim (absorb freed after) [
    | some (grown, after') ↦ merge_loop fuel before grown after'
    | none ↦ some (before ++ freed ∷ after)
  ]
]

-- The search for the region that begins at `addr`; `seen` holds the regions before it.
pub find_base :
    ℕ
    → List MemoryRegion
    → List MemoryRegion
    → Option (List MemoryRegion × MemoryRegion × List MemoryRegion)
find_base addr seen [] = none
find_base addr seen (r ∷ rest) = elim (r.base == addr) [
  | true ↦ some (seen, r, rest)
  | false ↦ find_base addr (seen ++ r ∷ []) rest
]

pub release :
    List MemoryRegion
    → List MemoryRegion
    → MemoryRegion
    → List MemoryRegion
    → Option (List MemoryRegion)
release rs before r after =
    if is_usable r.type
    then some rs
    else merge_loop (suc (length before + length after)) before
        (record r { type = RegionType.usable }) after

-- `none` would mean that the fuel of the loop ran out.
pub pmm_free : List MemoryRegion → ℕ → Option (List MemoryRegion)
pmm_free rs ptr = if ptr == 0 then some rs else elim (find_base (ptr / 4096 * 4096) [] rs) [
  | none ↦ some rs
  | some (before, r, after) ↦ release rs before r after
]
