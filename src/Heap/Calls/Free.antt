-- ===== src/Heap/Calls/Free.antt =====
-- The loop of `heap_free` over the regions.
use atom_os.Prelude.{
  ℕ, ◌+◌, ◌-◌, ◌≡◌, ◌≢◌, ◌<◌, ◌≤◌, ◌∙◌, ◌⊎◌, inl, inr, ap, sym, refl, subst, true, false, none,
  some, List, [], ◌∷◌, arith, All, Option-cases,
}
use atom_os.Heap.Node.{Store, header}
use atom_os.Heap.Blocks.{Block}
use atom_os.Heap.Blocks.Laws.{size_at}
use atom_os.Heap.Region.{HeapRegion, free_region}
use atom_os.Heap.Region.Alloc.{IsRegion}
use atom_os.Heap.Region.Free.{Released, free_region-refines}
use atom_os.Heap.Region.Laws.{Taken, free_region_lem}
use atom_os.Heap.Calls.{free_in}
use atom_os.Heap.Calls.Chart.{
  Chart, regions_of, Apart, Outside, IsCharted, live, live_here, live_there, live_cong,
  IsRegion-within, IsCharted-Apart, size_at_within, live_outside, free_blocks_outside,
}

-- The payload `p` has been taken back by one of the regions.
pub record Returned (h : Store) (cs : Chart) (p : ℕ) (g : Store) (ds : Chart) : Type 0 where
  pub runs : free_in h (regions_of cs) p ≡ some g
  pub heap : IsCharted g ds
  pub regions : regions_of ds ≡ regions_of cs
  pub gone : live p ds ≡ none
  pub others : (q : ℕ) → q ≢ p → live q ds ≡ live q cs
  pub frame : (x : ℕ) → All (λ c. Outside c.0 x) cs → g x ≡ h x
  pub apart : (s : HeapRegion) → All (λ c. Apart s c.0) cs → All (λ c. Apart s c.0) ds

-- A live payload lies in none of the regions that are apart from its own.
pub live_elsewhere :
    (h : Store) (p m : ℕ) (s : HeapRegion) (cs : Chart)
    → IsCharted h cs
    → All (λ c. Apart s c.0) cs
    → live p cs ≡ some m
    → (p < s.base) ⊎ (s.base + s.size ≤ p)
live_elsewhere h p m s [] i off l = absurd (none≢some (unfold live in l))
  where
    none≢some : (none ≡ some m) → ⊥
    none≢some x = cc
live_elsewhere h p m s ((r, bs) ∷ cs) i off l = elim (Option-cases (size_at p r.base bs)) [
  | inl n ↦ live_elsewhere h p m s cs i.2 off.1 (sym (live_there p r bs cs n) ∙ l)
  | inr (k, e) ↦
      let w = size_at_within h p r.base (r.base + (r.size - header)) k bs i.0.chain e in
      ground (arith, off.0, w, i.0.room)
]

-- A region that the pointer lies outside of answers false.
pub free_region_miss :
    (h : Store) (r : HeapRegion) (bs : List Block) (p : ℕ)
    → IsRegion h r bs
    → p ≢ 0
    → (p < r.base) ⊎ (r.base + r.size ≤ p)
    → free_region h r p ≡ some (false, h)
free_region_miss h r bs p i ne off =
    subst (Released h r.base (r.base + (r.size - header)) (free_region h r p))
      (free_blocks_outside h p r.base (r.base + (r.size - header)) bs i.chain
        (ground (arith, off, i.room)))
      (free_region-refines h r p bs i ne)

module _ (h g : Store) (r : HeapRegion) (rs : List HeapRegion) (p : ℕ) where
  free_in-hit : free_region h r p ≡ some (true, g) → free_in h (r ∷ rs) p ≡ some g
  unfolding free_in
  free_in-hit e = rw (e, free_in)

  pub free_in-miss : free_region h r p ≡ some (false, h) → free_in h (r ∷ rs) p ≡ free_in h rs p
  unfolding free_in
  free_in-miss e = rw (e, free_in)

some_pos : (k m : ℕ) → some k ≡ some m → 0 < m → 0 < k
some_pos k m e pos = ground (arith, e)

module _ (h : Store) (r : HeapRegion) (bs : List Block) (cs : Chart) (p : ℕ)
    (i : IsCharted h ((r, bs) ∷ cs)) where
  module _ (m : ℕ) (e : size_at p r.base bs ≡ some m) (g : Store) (bs' : List Block)
      (v : Taken h r bs p g bs') where
    away :
        (ds : Chart)
        → All (λ c. Apart r c.0) ds
        → All (λ c. (p < c.0.base) ⊎ (c.0.base + c.0.size ≤ p)) ds
    away [] off = tt
    away ((s, _) ∷ ds) off =
        let w = size_at_within h p r.base (r.base + (r.size - header)) m bs i.0.chain e in
        (ground (arith, off.0, w, i.0.room), away ds off.1)

    Returned-here : Returned h ((r, bs) ∷ cs) p g ((r, bs') ∷ cs)
    Returned-here = record {
      runs = free_in-hit h g r (regions_of cs) p v.runs;
      heap = (v.region, i.1, IsCharted-Apart h g r cs i.1 v.frame i.2);
      regions = refl;
      gone = live_there p r bs' cs v.gone ∙ live_outside h p cs i.2 (away cs i.1);
      others = λ q ne. live_cong q r bs bs' cs cs (v.others q ne) refl;
      frame = λ x off. v.frame x off.0;
      apart = λ s off. off;
    }

  module _ (absent : size_at p r.base bs ≡ none) (g : Store) (ds : Chart)
      (miss : free_region h r p ≡ some (false, h)) (v : Returned h cs p g ds) where
    off_all :
        (x : ℕ)
        → r.base ≤ x
        → x < r.base + r.size
        → (es : Chart) → All (λ c. Apart r c.0) es
        → All (λ c. Outside c.0 x) es
    off_all x l m [] off = tt
    off_all x l m ((s, _) ∷ es) off = (ground (arith, off.0), off_all x l m es off.1)

    Returned-there : Returned h ((r, bs) ∷ cs) p g ((r, bs) ∷ ds)
    Returned-there = record {
      runs = free_in-miss h g r (regions_of cs) p miss ∙ v.runs;
      heap = (
        IsRegion-within h g r bs (λ x l m. v.frame x (off_all x l m cs i.1)) i.0,
        v.apart r i.1,
        v.heap,
      );
      regions = ap (λ rs. r ∷ rs) v.regions;
      gone = live_there p r bs ds absent ∙ v.gone;
      others = λ q ne. live_cong q r bs bs cs ds refl (v.others q ne);
      frame = λ x off. v.frame x off.1;
      apart = λ s off. (off.0, v.apart s off.1);
    }

-- On a heap whose regions carry blocks and do not overlap, the loop of `heap_free` for a live
-- payload of at least one byte ends: the payload is live no more, every other payload is as
-- before, and the heap is again one whose regions carry blocks and do not overlap.
pub free_in_lem :
    (h : Store) (cs : Chart) (p m : ℕ)
    → IsCharted h cs
    → p ≢ 0
    → live p cs ≡ some m
    → 0 < m
    → (g : Store) × (ds : Chart) × Returned h cs p g ds
free_in_lem h [] p m i nz l pos = absurd (none≢some (unfold live in l))
  where
    none≢some : (none ≡ some m) → ⊥
    none≢some x = cc
free_in_lem h ((r, bs) ∷ cs) p m i nz l pos = elim (Option-cases (size_at p r.base bs)) [
  | inl n ↦
      let rest = sym (live_there p r bs cs n) ∙ l in
      let miss = free_region_miss h r bs p i.0 nz (live_elsewhere h p m r cs i.2 i.1 rest) in
      let (g, ds, v) = free_in_lem h cs p m i.2 nz rest pos in
      (g, (r, bs) ∷ ds, Returned-there h r bs cs p i n g ds miss v)
  | inr (k, e) ↦
      let same : some k ≡ some m = sym (live_here p k r bs cs e) ∙ l in
      let (g, bs', v) = free_region_lem h r p k bs i.0 e (some_pos k m same pos) in
      (g, (r, bs') ∷ cs, Returned-here h r bs cs p i k e g bs' v)
]
