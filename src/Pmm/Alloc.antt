-- ===== src/Pmm/Alloc.antt =====
-- `pmm_alloc` of kernel/memory/pmm.c. What its calls of `malloc` return is an argument: a list
-- that says of each call in turn whether it succeeds, where the end of the list is a failure. The
-- kernel heap asks `pmm_alloc` for more memory when it is exhausted; here a call of `malloc` does
-- not come back to the region list.
pub mod Taken
pub mod Carve
pub mod Laws
pub mod Tests
use atom_os.Prelude.{
  ℕ, suc, ◌+◌, ◌-◌, ◌*◌, ◌/◌, ◌%◌, ◌^◌, Bool, true, false, ◌&&◌, not, Option, none, some, List, [],
  ◌∷◌, ◌++◌, ltb, leb, ◌==◌, if◌then◌else◌, length, take, drop, add64, sub64, mul64,
}
use atom_os.Pmm.Region.{MemoryRegion, RegionType, region_end, is_usable}
use atom_os.Pmm.Maintain.{pmm_maintain}

abbrev pub page : ℕ
page = 4096

-- `(x + PAGE - 1) & ~(PAGE - 1)`: the mask clears the twelve low bits.
abbrev pub align_up : ℕ → ℕ
align_up x = add64 x (page - 1) / page * page

abbrev pub Mallocs : Type 0
Mallocs = List Bool

abbrev pub next_malloc : Mallocs → Bool × Mallocs
next_malloc [] = (false, [])
next_malloc (b ∷ m) = (b, m)

-- `List_InsertAt` of kernel/list.c: an index past the end is refused, and so is a failed
-- allocation of the node. At the end it is `List_Add`, which drops the item without a word when
-- that allocation fails.
pub insert_at : List MemoryRegion → ℕ → MemoryRegion → Mallocs → Bool × List MemoryRegion × Mallocs
insert_at rs i r m =
    if ltb (length rs) i
    then (false, rs, m)
    else let (got, m') = next_malloc m in
      if i == length rs
      then (true, (if got then rs ++ r ∷ [] else rs), m')
      else if got
      then (true, take i rs ++ r ∷ drop i rs, m')
      else (false, rs, m')

-- What a call answers (`none` for NULL), the list it leaves, and the outcomes of later `malloc`s.
abbrev pub Reply : Type 0
Reply = Option ℕ × List MemoryRegion × Mallocs

-- The allocation of the struct `suffix` and its insertion at `index`, behind which `head` stands
-- before `rest`; `ret` is the answer of success.
insert_suffix : ℕ → ℕ → MemoryRegion → List MemoryRegion → MemoryRegion → Mallocs → Reply
insert_suffix ret index head rest suffix m =
    let (got, m') = next_malloc m in
    if got
    then (let (done, rest', m'') = insert_at rest index suffix m' in
        ((if done then some ret else none), head ∷ rest', m''))
    else (none, head ∷ rest, m')

module _ (alloc_size : ℕ) (cur : MemoryRegion) where
  -- The first page boundary in the region.
  pub aligned_base : ℕ
  aligned_base = align_up cur.base

  -- The tests by which the loop passes over a region.
  pub fits : Bool
  fits =
      is_usable cur.type
      && not (ltb aligned_base cur.base)
      && not (ltb cur.size (add64 (sub64 aligned_base cur.base) alloc_size))

  -- The rest of the region behind the block.
  suffix : MemoryRegion
  suffix =
      let alloc_end = add64 aligned_base alloc_size in
      record { base = alloc_end; size = sub64 (region_end cur) alloc_end; type = RegionType.usable }

  has_suffix : Bool
  has_suffix = ltb (add64 aligned_base alloc_size) (region_end cur)

  -- The block at the start of the region: the region becomes the block.
  carve_front : List MemoryRegion → Mallocs → Reply
  carve_front rest m =
      let block = record cur { size = alloc_size; type = RegionType.reserved } in
      if has_suffix
      then insert_suffix cur.base 0 block rest suffix m
      else (some cur.base, block ∷ rest, m)

  -- The block behind a gap: the region shrinks to the gap, and the block is inserted behind it.
  carve_middle : List MemoryRegion → Mallocs → Reply
  carve_middle rest m =
      let (got, m') = next_malloc m in
      let block : MemoryRegion = record {
        base = aligned_base;
        size = alloc_size;
        type = RegionType.reserved;
      } in
      let front = record cur { size = sub64 aligned_base cur.base } in
      if got
      then (let (done, rest', m'') = insert_at rest 0 block m' in
          if done
          then (if has_suffix
              then insert_suffix aligned_base 1 front rest' suffix m''
              else (some aligned_base, front ∷ rest', m''))
          else (none, front ∷ rest', m''))
      else (none, cur ∷ rest, m')

  -- What is done with the first region that fits.
  pub carve : List MemoryRegion → Mallocs → Reply
  carve rest m =
      if sub64 aligned_base cur.base == 0
      then (if cur.size == alloc_size
          then (some cur.base, record cur { type = RegionType.reserved } ∷ rest, m)
          else carve_front rest m)
      else carve_middle rest m

-- The loop over the list.
alloc_from : ℕ → List MemoryRegion → Mallocs → Reply
alloc_from alloc_size [] m = (none, [], m)
alloc_from alloc_size (cur ∷ rest) m = elim (fits alloc_size cur) [
  | true ↦ carve alloc_size cur rest m
  | false ↦ let (ret, rest', m') = alloc_from alloc_size rest m in (ret, cur ∷ rest', m')
]

-- The size in bytes, in whole pages; `none` where the guards before the loop answer NULL.
pub alloc_size_of : ℕ → Option ℕ
alloc_size_of kb =
    if kb == 0
    then none
    else if ltb ((2 ^ 64 - 1) / 1024) kb
    then none
    else let alloc_size = align_up (mul64 kb 1024) in
      if alloc_size == 0 then none else some alloc_size

pub pmm_alloc : List MemoryRegion → ℕ → Mallocs → Reply
pmm_alloc rs kb m = elim (alloc_size_of kb) [
  | none ↦ (none, rs, m)
  | some alloc_size ↦ alloc_from alloc_size (pmm_maintain rs) m
]
