-- ===== src/Heap/Tests.antt =====
-- Runs of the heap at concrete regions.
use atom_os.Prelude.{inr, ◌⊎◌, none, some, true, ℕ, ◌≡◌, List, [], ◌∷◌, arith}
use atom_os.Heap.Calls.{KernelHeap, Outcome, heap_alloc, heap_free, grow, heap_register_region}
use atom_os.Heap.Calls.Register.{heap_free-heap_register_region}
use atom_os.Heap.Calls.Chart.{Chart, live_here}
use atom_os.Heap.Calls.Alloc.{Supplied, Full}
use atom_os.Heap.Calls.Free.{Returned}
use atom_os.Heap.Calls.Laws.{heap_of, heap_alloc_lem, heap_free_lem}
use atom_os.Heap.Node.{Store}
use atom_os.Heap.Blocks.{Block}
use atom_os.Heap.Region.Laws.{Answers, Taken, alloc_region_lem, free_region_lem}
use atom_os.Heap.Examples.{
  front_region, third_region, two_store, two_chart-IsCharted, arena, at_first, one_free,
  at_first-IsRegion, payload, one_taken, given_out, payload-Given, payload-live, free_chart,
  taken_chart, free_chart-IsCharted, taken_chart-IsCharted,
}

alloc_region_lem_example : Answers at_first arena 100 one_free
alloc_region_lem_example = alloc_region_lem at_first arena 100 one_free at_first-IsRegion

free_region_lem_example :
    (g : Store) × (cs : List Block) × Taken given_out arena one_taken payload g cs
free_region_lem_example =
    free_region_lem given_out arena payload 100 one_taken payload-Given.region payload-live
      (omega arith)

-- A kernel whose physical memory is exhausted.
abbrev no_pages : ℕ → KernelHeap → Outcome
no_pages kb k = some (none, k)

heap_alloc_lem_example :
    ((heap_alloc arena true no_pages (heap_of at_first free_chart) 100
        ≡ grow arena true no_pages (heap_of at_first free_chart) 100)
      × Full 100 free_chart)
    ⊎ ((p : ℕ) × (g : Store) × (ds : Chart) × (heap_alloc arena true no_pages
            (heap_of at_first free_chart)
            100
          ≡ some (some p, heap_of g ds))
        × Supplied at_first free_chart 100 p g ds)
heap_alloc_lem_example =
    heap_alloc_lem arena true no_pages at_first free_chart (λ e. absurd cc) 100 (omega arith)
      free_chart-IsCharted

heap_free_lem_example :
    (g : Store) × (ds : Chart) × (heap_free arena (heap_of given_out taken_chart) payload
      ≡ some (heap_of g ds))
    × Returned given_out taken_chart payload g ds
heap_free_lem_example =
    heap_free_lem arena given_out taken_chart (λ e. absurd cc) payload 100 taken_chart-IsCharted
      (live_here payload 100 arena one_taken [] payload-live) (omega arith)

heap_free-heap_register_region_example :
    (k : KernelHeap) × (heap_register_region
        (heap_of two_store ((front_region, one_free) ∷ taken_chart))
        third_region
      ≡ some k)
    × (heap_free arena k payload ≡ some k)
heap_free-heap_register_region_example =
    heap_free-heap_register_region arena two_store front_region one_free taken_chart third_region
      two_chart-IsCharted (omega arith) (omega arith) (omega arith) (inr (omega arith))
      (inr (omega arith), tt) payload 100 (live_here payload 100 arena one_taken [] payload-live)
