-- ===== src/Heap/Calls/Laws.antt =====
-- `heap_alloc` and `heap_free` as their callers see them.
use atom_os.Prelude.{
  ℕ, ◌≡◌, ◌≢◌, ◌<◌, ◌∙◌, refl, ◌⊎◌, inl, inr, ap, sym, Bool, false, none, some, [], ◌∷◌, arith,
  ◌==◌, Option-cases,
}
use atom_os.Heap.Node.{Store}
use atom_os.Heap.Blocks.Laws.{size_at}
use atom_os.Heap.Region.{HeapRegion}
use atom_os.Heap.Calls.{KernelHeap, Outcome, alloc_in, free_in, ready, heap_alloc, heap_free, grow}
use atom_os.Heap.Calls.Chart.{Chart, regions_of, IsCharted, live, live_there, size_at_within}
use atom_os.Heap.Calls.Alloc.{Full, Supplied, alloc_in_lem}
use atom_os.Heap.Calls.Free.{Returned, free_in_lem}

abbrev pub heap_of : Store → Chart → KernelHeap
heap_of h cs = record { store = h; regions = regions_of cs }

same_regions :
    (g : Store) (cs ds : Chart)
    → regions_of ds ≡ regions_of cs
    → record { store = g; regions = regions_of cs } ≡ heap_of g ds
same_regions g cs ds e = ap (λ rs. record { store = g; regions = rs }) (sym e)

pub live_nonzero : (h : Store) (p m : ℕ) (cs : Chart) → IsCharted h cs → live p cs ≡ some m → p ≢ 0
live_nonzero h p m [] i l = absurd (none≢some (unfold live in l))
  where
    none≢some : (none ≡ some m) → ⊥
    none≢some x = cc
live_nonzero h p m ((r, bs) ∷ cs) i l = elim (Option-cases (size_at p r.base bs)) [
  | inl n ↦ live_nonzero h p m cs i.2 (sym (live_there p r bs cs n) ∙ l)
  | inr (k, e) ↦ λ z. absurd (omega (arith, size_at_within h p r.base _ k bs i.0.chain e))
]

module _ (local_heap : HeapRegion) where
  ready_heap : (h : Store) (cs : Chart) → cs ≢ [] → ready local_heap (heap_of h cs) ≡ heap_of h cs
  unfolding ready
  ready_heap h [] ne = absurd (ne refl)
  ready_heap h (c ∷ cs) ne = refl

  module _ (has_memory_regions : Bool) (pmm_alloc : ℕ → KernelHeap → Outcome) (h : Store)
      (cs : Chart) (ne : cs ≢ []) (n : ℕ) (pos : 0 < n) where
    heap_alloc-hit :
        (p : ℕ) (g : Store)
        → alloc_in h (regions_of cs) n ≡ some (some p, g)
        → heap_alloc local_heap has_memory_regions pmm_alloc (heap_of h cs) n
          ≡ some (some p, record { store = g; regions = regions_of cs })
    unfolding heap_alloc
    heap_alloc-hit p g e =
        let nz : (n == 0) ≡ false = ground arith in
        let rd = ready_heap h cs ne in
        rw (nz, heap_alloc)
          (rw (rd, heap_alloc)
            (rw (e, heap_alloc)
              (ap (λ k. some (some p, record { store = g; regions = k.regions })) rd)))

    heap_alloc-full :
        alloc_in h (regions_of cs) n ≡ some (none, h)
        → heap_alloc local_heap has_memory_regions pmm_alloc (heap_of h cs) n
          ≡ grow local_heap has_memory_regions pmm_alloc (heap_of h cs) n
    unfolding heap_alloc
    heap_alloc-full e =
        let nz : (n == 0) ≡ false = ground arith in
        let rd = ready_heap h cs ne in
        rw (nz, heap_alloc)
          (rw (rd, heap_alloc)
            (rw (e, heap_alloc)
              (ap
                (λ k.
                  grow local_heap has_memory_regions pmm_alloc
                    (record { store = h; regions = k.regions }) n)
                rd)))

    -- With at least one region, regions that carry blocks and do not overlap, and a request of at
    -- least one byte, `heap_alloc` either finds no region with a free block of `n` bytes and goes on
    -- to grow the unchanged heap, or answers a payload of `n` bytes or more that was not live and is
    -- live now; every other live payload keeps its size, and the regions again carry blocks and do
    -- not overlap.
    pub heap_alloc_lem :
        IsCharted h cs
        → ((heap_alloc local_heap has_memory_regions pmm_alloc (heap_of h cs) n
              ≡ grow local_heap has_memory_regions pmm_alloc (heap_of h cs) n)
            × Full n cs)
          ⊎ ((p : ℕ) × (g : Store) × (ds : Chart) × (heap_alloc local_heap has_memory_regions
                  pmm_alloc
                  (heap_of h cs)
                  n
                ≡ some (some p, heap_of g ds))
              × Supplied h cs n p g ds)
    heap_alloc_lem i = elim (alloc_in_lem h cs n i) [
      | inl (runs, full) ↦ inl (heap_alloc-full runs, full)
      | inr (p, g, ds, v) ↦ inr (
        p,
        g,
        ds,
        heap_alloc-hit p g v.runs ∙ ap (λ k. some (some p, k)) (same_regions g cs ds v.regions),
        v,
      )
    ]

  module _ (h : Store) (cs : Chart) (ne : cs ≢ []) (p : ℕ) where
    pub heap_free-hit :
        (g : Store)
        → p ≢ 0
        → free_in h (regions_of cs) p ≡ some g
        → heap_free local_heap (heap_of h cs) p
          ≡ some (record { store = g; regions = regions_of cs })
    unfolding heap_free
    heap_free-hit g nz e =
        let off : (p == 0) ≡ false = ground arith in
        let rd = ready_heap h cs ne in
        rw (off, heap_free)
          (rw (rd, heap_free)
            (rw (e, heap_free) (ap (λ k. some (record { store = g; regions = k.regions })) rd)))

    -- With at least one region, and regions that carry blocks and do not overlap, `heap_free` of a
    -- live payload of at least one byte ends: the payload is live no more, every other payload is
    -- as before, and the regions again carry blocks and do not overlap.
    pub heap_free_lem :
        (m : ℕ)
        → IsCharted h cs
        → live p cs ≡ some m
        → 0 < m
        → (g : Store) × (ds : Chart) × (heap_free local_heap (heap_of h cs) p ≡ some (heap_of g ds))
          × Returned h cs p g ds
    heap_free_lem m i l pos =
        let nz = live_nonzero h p m cs i l in
        let (g, ds, v) = free_in_lem h cs p m i nz l pos in
        (g, ds, heap_free-hit g nz v.runs ∙ ap some (same_regions g cs ds v.regions), v)
