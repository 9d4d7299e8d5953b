-- ===== src/Heap/Region/Free.antt =====
-- `free_region` against the release of a block and its merging with its neighbours.
use mathlib.Core.Path.{subst₂}
use atom_os.Prelude.{
  ℕ, zero, suc, ◌+◌, ◌-◌, ◌≡◌, ◌≢◌, ◌<◌, ◌∙◌, ap, sym, subst, refl, Bool, true, false, ◌&&◌, ◌==◌,
  Option, none, some, List, [], ◌∷◌, arith, ltb, Bool-cases, inl, inr, length, if◌then◌else◌,
}
use atom_os.Heap.Node.{Store, header, put}
use atom_os.Heap.Blocks.{Block, block, Chain, holds, merge_front, free_blocks}
use atom_os.Heap.Blocks.Step.{behind, free_blocks-here, free_blocks-behind}
use atom_os.Heap.Region.{
  HeapRegion, at_end, join_next, join_prev, release_node, free_loop, free_region,
}
use atom_os.Heap.Region.Chain.{put_ne, at_end-Chain, at_end-Chain_nil, Chain-bounds}
use atom_os.Heap.Region.Alloc.{length-Chain, IsRegion}
use atom_os.Heap.Region.Merge.{
  Chain-put, Rewrites, join_next-Rewrites, join_prev-Rewrites, join_prev-none,
}

-- A merged list begins with a free block.
merge_front-cons :
    (size : ℕ) (bs : List Block)
    → (d : Block) × (rest : List Block) × (merge_front (block true size) bs ≡ d ∷ rest)
      × (d.free ≡ true)
merge_front-cons size [] = (block true size, [], refl, refl)
merge_front-cons size (d ∷ bs) = elim (Bool-cases d.free) [
  | inl f ↦ (block true (size + (header + d.size)), bs, rw f, refl)
  | inr f ↦ (block true size, d ∷ bs, rw f, refl)
]

-- The chain of a step, with a block in front that the step leaves alone.
Chain-before :
    (h g : Store) (q e : ℕ) (b : Block) (bs cs : List Block)
    → Chain h q (b ∷ bs) e
    → Rewrites h g (q + (header + b.size)) e cs
    → Chain g q (b ∷ cs) e
Chain-before h g q e b bs cs c r =
    let s = r.frame q (inl (omega arith)) in
    (c.0, ap (λ x. x.magic) s ∙ c.1, ap (λ x. x.is_free) s ∙ c.2, ap (λ x. x.next) s ∙ c.3, r.chain)

Rewrites-trans :
    {h g k : Store} {a e : ℕ} {bs cs : List Block}
    → Rewrites h g a e bs
    → Rewrites g k a e cs
    → Rewrites h k a e cs
Rewrites-trans r s = record { chain = s.chain; frame = λ x l. s.frame x l ∙ r.frame x l }

module _ (h : Store) (a e : ℕ) (b : Block) (bs : List Block) (c : Chain h a (b ∷ bs) e) where
  abbrev freed : Store
  freed = put h a (record (h a) { is_free = true })

  freed-Rewrites : Rewrites h freed a e (block true b.size ∷ bs)
  freed-Rewrites = record {
    chain = Chain-put h a e b bs c (record (h a) { is_free = true }) true c.1 refl refl;
    frame = λ x l.
        put_ne h a x (record (h a) { is_free = true })
          (ground (arith, l, Chain-bounds h (a + (header + b.size)) e bs c.4));
  }

  joined-Rewrites : Rewrites h (join_next freed a) a e (merge_front (block true b.size) bs)
  joined-Rewrites =
      Rewrites-trans freed-Rewrites (join_next-Rewrites freed a e b.size bs freed-Rewrites.chain)

  -- The first block of a region has no block in front.
  release_node-first : Rewrites h (release_node h a 0) a e (merge_front (block true b.size) bs)
  unfolding release_node
  release_node-first =
      subst (λ g. Rewrites h g a e (merge_front (block true b.size) bs))
        (sym (join_prev-none (join_next freed a) a)) joined-Rewrites

-- With a block in front.
release_node-behind :
    (h : Store) (q e : ℕ) (b d : Block) (bs : List Block)
    → Chain h q (b ∷ d ∷ bs) e
    → Rewrites h
        (release_node h (q + (header + b.size)) q)
        q
        e
        (merge_front b (merge_front (block true d.size) bs))
unfolding release_node
release_node-behind h q e b d bs c =
    let a = q + (header + b.size) in
    let r = joined-Rewrites h a e d bs c.4 in
    let g = join_next (freed h a e d bs c.4) a in
    let (x, rest, eq, f) = merge_front-cons d.size bs in
    let chain = Chain-before h g q e b (d ∷ bs) (x ∷ rest) c (subst (Rewrites h g a e) eq r) in
    let s = join_prev-Rewrites g q e b x rest chain f in
    let here : Rewrites h g q e (b ∷ x ∷ rest) = record {
      chain = chain;
      frame = λ y l. r.frame y (ground (arith, l));
    } in
    subst (λ l. Rewrites h (join_prev g a q) q e (merge_front b l)) (sym eq) (Rewrites-trans here s)

-- What the loop has done, when the release on the blocks does `o`.
abbrev pub Released : Store → ℕ → ℕ → Option (Bool × Store) → Option (List Block) → Type 0
Released h a e r none = r ≡ some (false, h)
Released h a e r (some bs) = (g : Store) × (r ≡ some (true, g)) × Rewrites h g a e bs

module _ (fuel : ℕ) (h : Store) (node prev ptr : ℕ) where
  free_loop-stop : at_end h node ≡ true → free_loop (suc fuel) h node prev ptr ≡ some (false, h)
  unfolding free_loop
  free_loop-stop e = rw (e, free_loop)

  free_loop-found :
      at_end h node ≡ false
      → (ltb node ptr && ltb ptr (h node).next) ≡ true
      → free_loop (suc fuel) h node prev ptr ≡ some (true, release_node h node prev)
  unfolding free_loop
  free_loop-found e t = rw (e, free_loop) (rw (t, free_loop))

  free_loop-next :
      at_end h node ≡ false
      → (ltb node ptr && ltb ptr (h node).next) ≡ false
      → free_loop (suc fuel) h node prev ptr ≡ free_loop fuel h (h node).next node ptr
  unfolding free_loop
  free_loop-next e t = rw (e, free_loop) (rw (t, free_loop))

-- The list of a step, seen from one block further on.
Released-behind :
    (h : Store) (q e ptr : ℕ) (b d : Block) (bs : List Block) (r : Option (Bool × Store))
    → Chain h q (b ∷ d ∷ bs) e
    → holds ptr (q + (header + b.size)) d ≡ false
    → (o : Option (List Block)) → Released h (q + (header + b.size)) e r o
    → Released h q e r (behind ptr q b (d ∷ bs) o)
unfolding behind
Released-behind h q e ptr b d bs r c t none k = k
Released-behind h q e ptr b d bs r c t (some cs) (g, runs, w) = (
  g,
  runs,
  subst (Rewrites h g q e) (sym (ap (λ x. if x then merge_front b cs else b ∷ cs) t)) (record {
    chain = Chain-before h g q e b (d ∷ bs) cs c w;
    frame = λ x l. w.frame x (ground (arith, l));
  }),
)

test-holds :
    (h : Store) (a e ptr : ℕ) (b : Block) (bs : List Block)
    → Chain h a (b ∷ bs) e
    → (ltb a ptr && ltb ptr (h a).next) ≡ holds ptr a b
test-holds h a e ptr b bs c = ap (λ x. ltb a ptr && ltb ptr x) c.3

module _ (fuel : ℕ) (h : Store) (q e ptr : ℕ) (b d : Block) (bs : List Block)
    (c : Chain h q (b ∷ d ∷ bs) e) where
  abbrev a : ℕ
  a = q + (header + b.size)

  found :
      holds ptr a d ≡ true
      → Released h q e
          (free_loop (suc fuel) h a q ptr)
          (behind ptr q b (d ∷ bs) (free_blocks ptr a (d ∷ bs)))
  unfolding behind
  found t =
      let runs =
        free_loop-found fuel h a q ptr (at_end-Chain h a e d bs c.4)
          (test-holds h a e ptr d bs c.4 ∙ t) in
      let list = merge_front b (merge_front (block true d.size) bs) in
      subst (Released h q e (free_loop (suc fuel) h a q ptr)) (sym result)
        (release_node h a q, runs, release_node-behind h q e b d bs c)
    where
      merged : List Block
      merged = merge_front (block true d.size) bs

      result : behind ptr q b (d ∷ bs) (free_blocks ptr a (d ∷ bs)) ≡ some (merge_front b merged)
      result =
          ap (behind ptr q b (d ∷ bs)) (free_blocks-here ptr a d bs t)
          ∙ ap (λ x. some (if x then merge_front b merged else b ∷ merged)) t

  step :
      holds ptr a d ≡ false
      → Released h a e
          (free_loop fuel h (a + (header + d.size)) a ptr)
          (behind ptr a d bs (free_blocks ptr (a + (header + d.size)) bs))
      → Released h q e
          (free_loop (suc fuel) h a q ptr)
          (behind ptr q b (d ∷ bs) (free_blocks ptr a (d ∷ bs)))
  step t k =
      let runs =
        free_loop-next fuel h a q ptr (at_end-Chain h a e d bs c.4)
          (test-holds h a e ptr d bs c.4 ∙ t)
        ∙ ap (λ x. free_loop fuel h x a ptr) c.4.3 in
      let o = free_blocks-behind ptr a d bs t in
      subst₂ (λ r l. Released h q e r (behind ptr q b (d ∷ bs) l)) (sym runs) (sym o)
        (Released-behind h q e ptr b d bs _ c t _ k)

-- The loop at the node behind the block `b`.
free_loop-behind :
    (fuel : ℕ) (h : Store) (q e ptr : ℕ) (b : Block) (bs : List Block)
    → Chain h q (b ∷ bs) e
    → length bs < fuel
    → Released h q e
        (free_loop fuel h (q + (header + b.size)) q ptr)
        (behind ptr q b bs (free_blocks ptr (q + (header + b.size)) bs))
free_loop-behind zero h q e ptr b bs c l = absurd (omega arith)
free_loop-behind (suc fuel) h q e ptr b [] c l =
    unfold behind free_blocks in
    free_loop-stop fuel h (q + (header + b.size)) q ptr
      (at_end-Chain_nil h (q + (header + b.size)) e c.4)
free_loop-behind (suc fuel) h q e ptr b (d ∷ bs) c l =
    elim (Bool-cases (holds ptr (q + (header + b.size)) d)) [
      | inl t ↦ found fuel h q e ptr b d bs c t
      | inr t ↦
          step fuel h q e ptr b d bs c t
            (free_loop-behind fuel h (q + (header + b.size)) e ptr d bs c.4 (omega arith))
    ]

free_loop-refines :
    (fuel : ℕ) (h : Store) (a e ptr : ℕ) (bs : List Block)
    → Chain h a bs e
    → length bs < fuel
    → Released h a e (free_loop fuel h a 0 ptr) (free_blocks ptr a bs)
free_loop-refines zero h a e ptr bs c l = absurd (omega arith)
free_loop-refines (suc fuel) h a e ptr [] c l =
    unfold free_blocks in free_loop-stop fuel h a 0 ptr (at_end-Chain_nil h a e c)
free_loop-refines (suc fuel) h a e ptr (b ∷ bs) c l = elim (Bool-cases (holds ptr a b)) [
  | inl t ↦
      let runs =
        free_loop-found fuel h a 0 ptr (at_end-Chain h a e b bs c)
          (test-holds h a e ptr b bs c ∙ t) in
      subst (Released h a e (free_loop (suc fuel) h a 0 ptr)) (sym (free_blocks-here ptr a b bs t))
        (release_node h a 0, runs, release_node-first h a e b bs c)
  | inr t ↦
      let runs =
        free_loop-next fuel h a 0 ptr (at_end-Chain h a e b bs c) (test-holds h a e ptr b bs c ∙ t)
        ∙ ap (λ x. free_loop fuel h x a ptr) c.3 in
      subst₂ (Released h a e) (sym runs) (sym (free_blocks-behind ptr a b bs t))
        (free_loop-behind fuel h a e ptr b bs c (omega arith))
]

-- `free_region` ends, and does on the nodes of a region what the release does on its blocks: where
-- the pointer lies in no block it answers false and writes nothing; else it answers true, leaves a
-- region that carries the blocks with that one free and merged with its free neighbours, and
-- writes no node outside the region.
pub free_region-refines :
    (h : Store) (r : HeapRegion) (ptr : ℕ) (bs : List Block)
    → IsRegion h r bs
    → ptr ≢ 0
    → Released h r.base
        (r.base + (r.size - header))
        (free_region h r ptr)
        (free_blocks ptr r.base bs)
unfolding free_region
free_region-refines h r ptr bs i ne =
    let off : (ptr == 0) ≡ false = ground arith in
    rw off (
      free_loop-refines r.size h r.base (r.base + (r.size - header)) ptr bs i.chain
        (omega (arith, i.room, length-Chain h r.base (r.base + (r.size - header)) bs i.chain)))
