-- ===== src/Heap/Examples.antt =====
-- A region for the tests: 4 KiB at 1 MiB, with one payload of 100 bytes given out.
use atom_os.Prelude.{
  inl, inr, subst, true, false, ℕ, ◌≡◌, refl, true, false, some, List, [], ◌∷◌, arith,
}
use atom_os.Heap.Calls.Chart.{Chart, IsCharted, IsRegion-within}
use atom_os.Heap.Calls.Alloc.{Supplied, Supplied-here}
use atom_os.Heap.Node.{Store}
use atom_os.Heap.Blocks.{Block, block, alloc_blocks, taken}
use atom_os.Heap.Blocks.Laws.{Served, alloc_blocks-Served, size_at}
use atom_os.Heap.Region.{HeapRegion, init_region, alloc_region}
use atom_os.Heap.Region.Alloc.{Allocated, IsRegion, alloc_region-refines}
use atom_os.Heap.Region.Laws.{Given, init_region_lem, init_region-frame}

abbrev pub arena : HeapRegion
arena = record { base = 0x100000; size = 4096 }

abbrev pub zeroed : Store
zeroed = λ a. record { magic = 0; is_free = false; next = 0 }

abbrev pub at_first : Store
at_first = init_region arena zeroed

abbrev pub one_free : List Block
one_free = block true 4064 ∷ []

pub at_first-IsRegion : IsRegion at_first arena one_free
at_first-IsRegion = init_region_lem zeroed arena (omega arith) (omega arith) (omega arith)

abbrev pub payload : ℕ
payload = 0x100010

abbrev pub one_taken : List Block
one_taken = block false 100 ∷ block true 3948 ∷ []

one_taken_blocks : alloc_blocks 100 0x100000 one_free ≡ some (payload, one_taken)
unfolding alloc_blocks taken
one_taken_blocks = refl

pub found :
    Allocated at_first 0x100000 0x100FF0
      (alloc_region at_first arena 100)
      (some (payload, one_taken))
found =
    subst (Allocated at_first 0x100000 0x100FF0 (alloc_region at_first arena 100)) one_taken_blocks
      (alloc_region-refines at_first arena 100 one_free at_first-IsRegion)

unfoldable pub given_out : Store
given_out = found.0

pub payload-Given : Given at_first arena 100 one_free payload given_out one_taken
unfolding given_out
payload-Given = record {
  runs = found.1;
  region = record { room = omega arith; chain = found.2 };
  allot =
      subst (Served 100 0x100000 one_free) one_taken_blocks
        (alloc_blocks-Served 100 0x100000 one_free);
  frame = found.3;
}

pub payload-live : size_at payload 0x100000 one_taken ≡ some 100
unfolding size_at
payload-live = refl

abbrev pub free_chart : Chart
free_chart = (arena, one_free) ∷ []

abbrev pub taken_chart : Chart
taken_chart = (arena, one_taken) ∷ []

pub free_chart-IsCharted : IsCharted at_first free_chart
free_chart-IsCharted = (at_first-IsRegion, tt, tt)

pub taken_chart-IsCharted : IsCharted given_out taken_chart
taken_chart-IsCharted = (payload-Given.region, tt, tt)

pub payload-Supplied : Supplied at_first free_chart 100 payload given_out taken_chart
payload-Supplied =
    Supplied-here at_first arena one_free [] 100 free_chart-IsCharted payload given_out one_taken
      payload-Given

-- A heap of two regions, with a payload in the second, and a third region.
abbrev pub front_region : HeapRegion
front_region = record { base = 0x200000; size = 4096 }

abbrev pub third_region : HeapRegion
third_region = record { base = 0x300000; size = 8192 }

abbrev pub two_store : Store
two_store = init_region front_region given_out

pub two_chart-IsCharted : IsCharted two_store ((front_region, one_free) ∷ taken_chart)
two_chart-IsCharted = (
  init_region_lem given_out front_region (omega arith) (omega arith) (omega arith),
  (inr (omega arith), tt),
  (
    IsRegion-within given_out two_store arena one_taken
        (λ x l m.
          init_region-frame given_out front_region (omega arith) (omega arith) (omega arith) x
            (inl (omega arith)))
        payload-Given.region,
    tt,
    tt,
  ),
)
