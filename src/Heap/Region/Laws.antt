-- ===== src/Heap/Region/Laws.antt =====
-- `initRegion`, `alloc_region` and `free_region` as their callers see them: the payloads that are
-- live, and how large they are.
use atom_os.Prelude.{
  ℕ, ◌+◌, ◌-◌, ◌*◌, ◌≡◌, ◌≢◌, ◌<◌, ◌≤◌, ◌∙◌, ◌⊎◌, inl, inr, ap, sym, true, false, Option, none,
  some, List, [], ◌∷◌, arith, word, ltb, ◌==◌, ◌||◌, All, add64, sub64,
}
use native.Mathlib.Decide.{ℕ_discrete, dec_lt}
use atom_os.Heap.Node.{HeapNode, Store, heap_magic, header, put}
use atom_os.Heap.Blocks.{Block, block, alloc_blocks, free_blocks}
use atom_os.Heap.Blocks.Laws.{
  size_at, size_at_below, Allot, Served, alloc_blocks-Served, Dropped, free_blocks-Dropped,
}
use atom_os.Heap.Region.{HeapRegion, init_region, alloc_region, free_region}
use atom_os.Heap.Region.Chain.{put_self, put_ne}
use atom_os.Heap.Region.Alloc.{Allocated, IsRegion, alloc_region-refines}
use atom_os.Heap.Region.Free.{Released, free_region-refines}

-- The region has no room for `n` bytes.
abbrev pub Refused : Store → HeapRegion → ℕ → List Block → Type 0
Refused h r n bs = (alloc_region h r n ≡ some (none, h)) × All (λ b. b.free ≡ true → b.size < n) bs

-- The region gives out the payload `p`.
pub record Given (h : Store) (r : HeapRegion) (n : ℕ) (bs : List Block) (p : ℕ) (g : Store)
    (cs : List Block) : Type 0 where
  pub runs : alloc_region h r n ≡ some (some p, g)
  pub region : IsRegion g r cs
  pub allot : Allot n r.base p bs cs
  pub frame : (x : ℕ) → (x < r.base) ⊎ (r.base + (r.size - header) ≤ x) → g x ≡ h x

module _ (h : Store) (r : HeapRegion) (n : ℕ) (bs : List Block) where
  abbrev pub Answers : Type 0
  Answers = Refused h r n bs ⊎ ((p : ℕ) × (g : Store) × (cs : List Block) × Given h r n bs p g cs)

  alloc_outcome :
      (o : Option (ℕ × List Block))
      → 2 * header ≤ r.size
      → Allocated h r.base (r.base + (r.size - header)) (alloc_region h r n) o
      → Served n r.base bs o
      → Answers
  alloc_outcome none room k s = inl (k, s)
  alloc_outcome (some (p, cs)) room (g, runs, chain, frame) s = inr (
    p,
    g,
    cs,
    record {
      runs = runs;
      region = record { room = room; chain = chain };
      allot = s;
      frame = frame;
    },
  )

-- On a region that carries blocks, `alloc_region` ends. Either it answers NULL, writes nothing, and
-- no free block has `n` bytes; or it answers a payload of `n` bytes or more that was not live and is
-- live now, every other live payload keeps its size, the nodes again carry blocks, and no node
-- outside the region is written.
pub alloc_region_lem :
    (h : Store) (r : HeapRegion) (n : ℕ) (bs : List Block) → IsRegion h r bs → Answers h r n bs
alloc_region_lem h r n bs i =
    alloc_outcome h r n bs (alloc_blocks n r.base bs) i.room (alloc_region-refines h r n bs i)
      (alloc_blocks-Served n r.base bs)

-- The region takes the payload `p` back.
pub record Taken (h : Store) (r : HeapRegion) (bs : List Block) (p : ℕ) (g : Store)
    (cs : List Block) : Type 0 where
  pub runs : free_region h r p ≡ some (true, g)
  pub region : IsRegion g r cs
  pub gone : size_at p r.base cs ≡ none
  pub others : (q : ℕ) → q ≢ p → size_at q r.base cs ≡ size_at q r.base bs
  pub frame : (x : ℕ) → (x < r.base) ⊎ (r.base + (r.size - header) ≤ x) → g x ≡ h x

free_outcome :
    (h : Store) (r : HeapRegion) (p : ℕ) (bs : List Block) (o : Option (List Block))
    → 2 * header ≤ r.size
    → Released h r.base (r.base + (r.size - header)) (free_region h r p) o
    → Dropped p r.base bs o
    → (g : Store) × (cs : List Block) × Taken h r bs p g cs
free_outcome h r p bs none room k d = absurd d
free_outcome h r p bs (some cs) room (g, runs, w) (gone, others) = (
  g,
  cs,
  record {
    runs = runs;
    region = record { room = room; chain = w.chain };
    gone = gone;
    others = others;
    frame = w.frame;
  },
)

-- A live payload lies behind the first header.
live-above : (p a m : ℕ) (bs : List Block) → size_at p a bs ≡ some m → a + header ≤ p
live-above p a m bs e = elim (dec_lt p (a + header)) [
  | yes l ↦ absurd (none≢some (sym (size_at_below p a bs l) ∙ e))
  | no l ↦ omega arith
]
  where
    none≢some : (none ≡ some m) → ⊥
    none≢some x = cc

-- On a region that carries blocks, `free_region` of a live payload of at least one byte ends and
-- answers true: the nodes again carry blocks, the payload is live no more, every other payload is
-- as before, and no node outside the region is written.
pub free_region_lem :
    (h : Store) (r : HeapRegion) (p m : ℕ) (bs : List Block)
    → IsRegion h r bs
    → size_at p r.base bs ≡ some m
    → 0 < m
    → (g : Store) × (cs : List Block) × Taken h r bs p g cs
free_region_lem h r p m bs i e pos =
    free_outcome h r p bs (free_blocks p r.base bs) i.room
      (free_region-refines h r p bs i (λ z. absurd (omega (arith, live-above p r.base m bs e))))
      (free_blocks-Dropped p r.base m bs e pos)

-- Where `alloc_region` has given out a payload for at least one byte, `free_region` of it right
-- after answers true, and the live payloads of the region and their sizes are those from before.
pub free_region-alloc_region :
    (h g : Store) (r : HeapRegion) (n p : ℕ) (bs cs : List Block)
    → 0 < n
    → Given h r n bs p g cs
    → (k : Store) × (ds : List Block) × Taken g r cs p k ds
      × ((q : ℕ) → size_at q r.base ds ≡ size_at q r.base bs)
free_region-alloc_region h g r n p bs cs pos v =
    let (k, ds, t) =
      free_region_lem g r p v.allot.size cs v.region v.allot.live
        (omega (arith, pos, v.allot.enough)) in
    (
      k,
      ds,
      t,
      λ q. elim (ℕ_discrete q p) [
        | yes e ↦
            ap (λ x. size_at x r.base ds) e
            ∙ t.gone
            ∙ sym v.allot.fresh
            ∙ ap (λ x. size_at x r.base bs) (sym e)
        | no ne ↦ t.others q ne ∙ v.allot.others q ne
      ],
    )

module _ (h : Store) (r : HeapRegion) (nz : r.base ≢ 0) (room : 2 * header ≤ r.size)
    (fit : r.base + r.size < word) where
  abbrev first : HeapNode
  first = record { magic = heap_magic; is_free = true; next = r.base + (r.size - header) }

  abbrev last : HeapNode
  last = record { magic = 0; is_free = false; next = 0 }

  abbrev end_at : ℕ
  end_at = r.base + (r.size - header)

  init_region-puts : init_region r h ≡ put (put h r.base first) end_at last
  unfolding init_region
  init_region-puts =
      let given : (r.base == 0 || r.size == 0) ≡ false = ground arith in
      let roomy : ltb r.size (2 * header) ≡ false = ground arith in
      let e : sub64 (add64 r.base r.size) header ≡ end_at = omega arith in
      rw given (rw roomy (rw e))

  at_base : init_region r h r.base ≡ first
  at_base =
      ap (λ g. g r.base) init_region-puts
      ∙ put_ne (put h r.base first) end_at r.base last (λ e. absurd (omega arith))
      ∙ put_self h r.base first

  at_last : init_region r h (r.base + (header + (r.size - 2 * header))) ≡ last
  at_last =
      let e : r.base + (header + (r.size - 2 * header)) ≡ end_at = omega arith in
      ap (init_region r h) e
      ∙ ap (λ g. g end_at) init_region-puts
      ∙ put_self (put h r.base first) end_at last

  -- `initRegion` on a region with a base, room for two nodes and an end below 2 ^ 64 leaves one
  -- free block, of all bytes but those of the two nodes.
  pub init_region_lem : IsRegion (init_region r h) r (block true (r.size - 2 * header) ∷ [])
  init_region_lem = record {
    room = room;
    chain = (
      nz,
      ap (λ n. n.magic) at_base,
      ap (λ n. n.is_free) at_base,
      ap (λ n. n.next) at_base ∙ (omega arith),
      (
        omega arith,
        λ e. absurd (omega arith),
        ap (λ n. n.magic) at_last,
        ap (λ n. n.is_free) at_last,
        ap (λ n. n.next) at_last,
        omega arith,
      ),
    );
  }

  -- Only the two nodes of the region are written.
  pub init_region-frame : (x : ℕ) → (x < r.base) ⊎ (r.base + r.size ≤ x) → init_region r h x ≡ h x
  init_region-frame x off =
      ap (λ g. g x) init_region-puts
      ∙ put_ne (put h r.base first) end_at x last (ground (arith, off, room))
      ∙ put_ne h r.base x first (ground (arith, off, room))
