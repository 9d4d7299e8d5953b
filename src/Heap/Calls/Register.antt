-- ===== src/Heap/Calls/Register.antt =====
-- `heap_register_region`, and the regions that it unlinks.
use atom_os.Prelude.{
  ℕ, ◌+◌, ◌-◌, ◌*◌, ◌≡◌, ◌≢◌, ◌<◌, ◌≤◌, ◌∙◌, refl, some, List, [], ◌∷◌, arith, word, All, ltb, ◌==◌,
  ◌||◌, true, false,
}
use atom_os.Heap.Node.{Store, header}
use atom_os.Heap.Blocks.{Block, block}
use atom_os.Heap.Region.{HeapRegion, init_region}
use atom_os.Heap.Region.Alloc.{IsRegion}
use atom_os.Heap.Region.Laws.{init_region_lem, init_region-frame}
use atom_os.Heap.Calls.{KernelHeap, heap_free, heap_register_region, free_in}
use atom_os.Heap.Calls.Chart.{Chart, Apart, IsCharted, live, IsRegion-within}
use atom_os.Heap.Calls.Free.{live_elsewhere, free_region_miss, free_in-miss}
use atom_os.Heap.Calls.Laws.{heap_of, heap_free-hit, live_nonzero}

module _ (local_heap : HeapRegion) (h : Store) (r : HeapRegion) (bs : List Block) (cs : Chart)
    (new : HeapRegion) (i : IsCharted h ((r, bs) ∷ cs)) (nz : new.base ≢ 0)
    (room : 2 * header ≤ new.size) (fit : new.base + new.size < word) (off : Apart new r)
    (offs : All (λ c. Apart new c.0) cs) where
  abbrev store : Store
  store = init_region new h

  abbrev fresh : List Block
  fresh = block true (new.size - 2 * header) ∷ []

  abbrev left : Chart
  left = (r, bs) ∷ (new, fresh) ∷ []

  runs : heap_register_region (heap_of h ((r, bs) ∷ cs)) new ≡ some (heap_of store left)
  unfolding heap_register_region
  runs =
      let given : (new.base == 0 || new.size == 0) ≡ false = ground arith in
      let roomy : ltb new.size (2 * header) ≡ false = ground arith in rw given (rw roomy)

  first-IsRegion : IsRegion store r bs
  first-IsRegion =
      IsRegion-within h store r bs
        (λ x l m. init_region-frame h new nz room fit x (ground (arith, off))) i.0

  -- After `heap_register_region` of a region apart from the others, `heap_free` of a payload that is
  -- live in any region behind the first one does nothing.
  pub heap_free-heap_register_region :
      (p m : ℕ)
      → live p cs ≡ some m
      → (k : KernelHeap) × (heap_register_region (heap_of h ((r, bs) ∷ cs)) new ≡ some k)
        × (heap_free local_heap k p ≡ some k)
  heap_free-heap_register_region p m l =
      let ne = live_nonzero h p m cs i.2 l in
      let one =
        free_region_miss store r bs p first-IsRegion ne (live_elsewhere h p m r cs i.2 i.1 l) in
      let two =
        free_region_miss store new fresh p (init_region_lem h new nz room fit) ne
          (live_elsewhere h p m new cs i.2 offs l) in
      (
        heap_of store left,
        runs,
        heap_free-hit local_heap store left (λ e. absurd cc) p store ne
            (free_in-miss store store r (new ∷ []) p one
              ∙ free_in-miss store store new [] p two
              ∙ (unfold free_in in refl)),
      )
