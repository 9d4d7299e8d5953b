-- ===== src/Heap/Calls/Alloc.antt =====
-- The loop of `heap_alloc` over the regions.
use atom_os.Prelude.{
  ℕ, ◌+◌, ◌-◌, ◌≡◌, ◌≢◌, ◌<◌, ◌≤◌, ◌∙◌, ◌⊎◌, inl, inr, ap, refl, true, none, some, List, [], ◌∷◌,
  arith, All,
}
use atom_os.Heap.Node.{Store, header}
use atom_os.Heap.Blocks.{Block}
use atom_os.Heap.Region.{HeapRegion, alloc_region}
use atom_os.Heap.Region.Laws.{Given, alloc_region_lem}
use atom_os.Heap.Calls.{alloc_in}
use atom_os.Heap.Calls.Chart.{
  Chart, regions_of, Apart, Outside, IsCharted, live, live_here, live_there, live_cong,
  IsRegion-within, IsCharted-Apart, size_at_within, size_at_outside, live_outside,
}

-- No region has a free block of `n` bytes.
abbrev pub Full : ℕ → Chart → Type 0
Full n cs = All (λ c. All (λ b. b.free ≡ true → b.size < n) c.1) cs

-- The payload `p` has been given out by one of the regions.
pub record Supplied (h : Store) (cs : Chart) (n p : ℕ) (g : Store) (ds : Chart) : Type 0 where
  pub runs : alloc_in h (regions_of cs) n ≡ some (some p, g)
  pub heap : IsCharted g ds
  pub regions : regions_of ds ≡ regions_of cs
  pub size : ℕ
  pub enough : n ≤ size
  pub fresh : live p cs ≡ none
  pub is_live : live p ds ≡ some size
  pub others : (q : ℕ) → q ≢ p → live q ds ≡ live q cs
  pub frame : (x : ℕ) → All (λ c. Outside c.0 x) cs → g x ≡ h x
  pub elsewhere :
      (s : HeapRegion) → All (λ c. Apart s c.0) cs → (p < s.base) ⊎ (s.base + s.size ≤ p)
  pub apart : (s : HeapRegion) → All (λ c. Apart s c.0) cs → All (λ c. Apart s c.0) ds

module _ (h g : Store) (r : HeapRegion) (rs : List HeapRegion) (n : ℕ) where
  alloc_in-hit :
      (p : ℕ) → alloc_region h r n ≡ some (some p, g) → alloc_in h (r ∷ rs) n ≡ some (some p, g)
  unfolding alloc_in
  alloc_in-hit p e = rw (e, alloc_in)

  alloc_in-miss : alloc_region h r n ≡ some (none, h) → alloc_in h (r ∷ rs) n ≡ alloc_in h rs n
  unfolding alloc_in
  alloc_in-miss e = rw (e, alloc_in)

module _ (h : Store) (r : HeapRegion) (bs : List Block) (cs : Chart) (n : ℕ)
    (i : IsCharted h ((r, bs) ∷ cs)) where
  module _ (p : ℕ) (g : Store) (bs' : List Block) (v : Given h r n bs p g bs') where
    inside : (r.base + header ≤ p) × (p ≤ r.base + (r.size - header))
    inside =
        size_at_within g p r.base (r.base + (r.size - header)) v.allot.size bs' v.region.chain
          v.allot.live

    away :
        (ds : Chart)
        → All (λ c. Apart r c.0) ds
        → All (λ c. (p < c.0.base) ⊎ (c.0.base + c.0.size ≤ p)) ds
    away [] off = tt
    away ((s, _) ∷ ds) off = (ground (arith, off.0, inside, i.0.room), away ds off.1)

    pub Supplied-here : Supplied h ((r, bs) ∷ cs) n p g ((r, bs') ∷ cs)
    Supplied-here = record {
      runs = alloc_in-hit h g r (regions_of cs) n p v.runs;
      heap = (v.region, i.1, IsCharted-Apart h g r cs i.1 v.frame i.2);
      regions = refl;
      size = v.allot.size;
      enough = v.allot.enough;
      fresh = live_there p r bs cs v.allot.fresh ∙ live_outside h p cs i.2 (away cs i.1);
      is_live = live_here p v.allot.size r bs' cs v.allot.live;
      others = λ q ne. live_cong q r bs bs' cs cs (v.allot.others q ne) refl;
      frame = λ x off. v.frame x off.0;
      elsewhere = λ s off. ground (arith, off.0, inside, i.0.room);
      apart = λ s off. off;
    }

  module _ (p : ℕ) (g : Store) (ds : Chart) (miss : alloc_region h r n ≡ some (none, h))
      (v : Supplied h cs n p g ds) where
    -- The addresses of the region are outside the others.
    off_all :
        (x : ℕ)
        → r.base ≤ x
        → x < r.base + r.size
        → (es : Chart) → All (λ c. Apart r c.0) es
        → All (λ c. Outside c.0 x) es
    off_all x l m [] off = tt
    off_all x l m ((s, _) ∷ es) off = (ground (arith, off.0), off_all x l m es off.1)

    Supplied-there : Supplied h ((r, bs) ∷ cs) n p g ((r, bs) ∷ ds)
    Supplied-there =
        let absent = size_at_outside h p r bs i.0 (v.elsewhere r i.1) in
        record {
          runs = alloc_in-miss h g r (regions_of cs) n miss ∙ v.runs;
          heap = (
            IsRegion-within h g r bs (λ x l m. v.frame x (off_all x l m cs i.1)) i.0,
            v.apart r i.1,
            v.heap,
          );
          regions = ap (λ rs. r ∷ rs) v.regions;
          size = v.size;
          enough = v.enough;
          fresh = live_there p r bs cs absent ∙ v.fresh;
          is_live = live_there p r bs ds absent ∙ v.is_live;
          others = λ q ne. live_cong q r bs bs cs ds refl (v.others q ne);
          frame = λ x off. v.frame x off.1;
          elsewhere = λ s off. v.elsewhere s off.1;
          apart = λ s off. (off.0, v.apart s off.1);
        }

-- On a heap whose regions carry blocks and do not overlap, the loop of `heap_alloc` ends. Either it
-- finds nothing, writes nothing, and no free block of any region has `n` bytes; or it answers a
-- payload of `n` bytes or more that was not live and is live now, every other live payload keeps
-- its size, and the heap is again one whose regions carry blocks and do not overlap.
pub alloc_in_lem :
    (h : Store) (cs : Chart) (n : ℕ)
    → IsCharted h cs
    → ((alloc_in h (regions_of cs) n ≡ some (none, h)) × Full n cs)
      ⊎ ((p : ℕ) × (g : Store) × (ds : Chart) × Supplied h cs n p g ds)
alloc_in_lem h [] n i = inl (unfold alloc_in in refl, tt)
alloc_in_lem h ((r, bs) ∷ cs) n i = elim (alloc_region_lem h r n bs i.0) [
  | inr (p, g, bs', v) ↦ inr (p, g, (r, bs') ∷ cs, Supplied-here h r bs cs n i p g bs' v)
  | inl (miss, small) ↦ elim (alloc_in_lem h cs n i.2) [
    | inl (runs, full) ↦ inl (alloc_in-miss h h r (regions_of cs) n miss ∙ runs, (small, full))
    | inr (p, g, ds, v) ↦ inr (p, g, (r, bs) ∷ ds, Supplied-there h r bs cs n i p g ds miss v)
  ]
]
