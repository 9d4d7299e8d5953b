-- ===== src/Heap/Region/Alloc.antt =====
-- `alloc_region` against first fit over the blocks.
use atom_os.Prelude.{
  ◌⊎◌, ◌≤◌, ℕ, zero, suc, ◌+◌, ◌-◌, ◌*◌, ◌≡◌, ◌<◌, ◌∙◌, ap, refl, true, false, ◌&&◌, Option, none,
  some, List, [], ◌∷◌, arith, word, leb, Bool-cases, inl, inr, length, add64, sub64, sym, subst,
  leb→le,
}
use mathlib.Core.Path.{ap₂, subst₂}
use atom_os.Heap.Node.{Store, heap_magic, header, min_size, put, node_size}
use atom_os.Heap.Blocks.{Block, block, Chain, taken, alloc_blocks}
use atom_os.Heap.Blocks.Step.{
  taken-split, taken-whole, alloc_blocks-take, alloc_blocks-none, alloc_blocks-some,
}
use atom_os.Heap.Region.{HeapRegion, at_end, take_node, alloc_loop, alloc_region}
use atom_os.Heap.Region.Chain.{
  Chain-bounds, Chain-frame, put_self, put_ne, node_size-Chain, at_end-Chain, at_end-Chain_nil,
}

-- What the loop has done, when first fit over the blocks does `o`.
abbrev pub Allocated : Store → ℕ → ℕ → Option (Option ℕ × Store) → Option (ℕ × List Block) → Type 0
Allocated h a e r none = r ≡ some (none, h)
Allocated h a e r (some (p, bs)) =
    (h' : Store) × (r ≡ some (some p, h'))
    × Chain h' a bs e
    × ((x : ℕ) → (x < a) ⊎ (e ≤ x) → h' x ≡ h x)

module _ (h : Store) (a e n : ℕ) (b : Block) (bs : List Block) (c : Chain h a (b ∷ bs) e)
    (fits : n ≤ b.size) where
  bounds : (a + (header + b.size) ≤ e) × (e < word)
  bounds = Chain-bounds h (a + (header + b.size)) e bs c.4

  -- The header of the free rest of a split block.
  abbrev cut : ℕ
  cut = a + (header + n)

  abbrev split : Store
  split =
      put (put h cut (record { magic = heap_magic; is_free = true; next = (h a).next })) a
        (record { magic = (h a).magic; is_free = false; next = cut })

  take_node-split : leb (min_size + header) (b.size - n) ≡ true → take_node h a n ≡ split
  unfolding take_node
  take_node-split t =
      let e1 : add64 (add64 a n) header ≡ cut = omega (arith, bounds) in
      let e2 : leb (min_size + header) (sub64 (node_size h a) n) ≡ true =
        ground (arith, node_size-Chain h a e b bs c, bounds) in
      rw (e2, e1)

  take_node-whole :
      leb (min_size + header) (b.size - n) ≡ false
      → take_node h a n ≡ put h a (record (h a) { is_free = false })
  unfolding take_node
  take_node-whole t =
      let e2 : leb (min_size + header) (sub64 (node_size h a) n) ≡ false =
        ground (arith, node_size-Chain h a e b bs c, bounds) in
      rw e2

  Chain-split :
      min_size + header ≤ b.size - n
      → Chain split a (block false n ∷ block true (b.size - n - header) ∷ bs) e
  Chain-split l =
      let at_a =
        put_self (put h cut (record { magic = heap_magic; is_free = true; next = (h a).next })) a
          (record { magic = (h a).magic; is_free = false; next = cut }) in
      let at_cut =
        put_ne (put h cut (record { magic = heap_magic; is_free = true; next = (h a).next })) a cut
          (record { magic = (h a).magic; is_free = false; next = cut }) (omega arith)
        ∙ put_self h cut (record { magic = heap_magic; is_free = true; next = (h a).next }) in
      let tail : cut + (header + (b.size - n - header)) ≡ a + (header + b.size) = omega arith in
      (
        c.0,
        ap (λ x. x.magic) at_a ∙ c.1,
        ap (λ x. x.is_free) at_a,
        ap (λ x. x.next) at_a,
        (
          omega arith,
          ap (λ x. x.magic) at_cut,
          ap (λ x. x.is_free) at_cut,
          ap (λ x. x.next) at_cut ∙ c.3 ∙ sym tail,
          rw tail (
              Chain-frame h split (a + (header + b.size)) e bs
                (λ x k. put_ne _ a x _ (omega arith) ∙ put_ne h cut x _ (omega arith)) c.4),
        ),
      )

  Chain-whole : Chain (put h a (record (h a) { is_free = false })) a (block false b.size ∷ bs) e
  Chain-whole =
      let at_a = put_self h a (record (h a) { is_free = false }) in
      (
        c.0,
        ap (λ x. x.magic) at_a ∙ c.1,
        ap (λ x. x.is_free) at_a,
        ap (λ x. x.next) at_a ∙ c.3,
        Chain-frame h (put h a (record (h a) { is_free = false })) (a + (header + b.size)) e bs
            (λ x k. put_ne h a x _ (omega arith)) c.4,
      )

  take_node-Chain : Chain (take_node h a n) a (taken n b bs) e
  take_node-Chain = elim (Bool-cases (leb (min_size + header) (b.size - n))) [
    | inl t ↦
        subst₂ (λ s l. Chain s a l e) (sym (take_node-split t)) (sym (taken-split n b bs t))
          (Chain-split (leb→le (min_size + header) (b.size - n) t))
    | inr t ↦
        subst₂ (λ s l. Chain s a l e) (sym (take_node-whole t)) (sym (taken-whole n b bs t))
          Chain-whole
  ]

  take_node-frame : (x : ℕ) → (x < a) ⊎ (e ≤ x) → take_node h a n x ≡ h x
  unfolding take_node put
  take_node-frame x l =
      let r = Chain-bounds h (a + (header + b.size)) e bs c.4 in
      ground (arith, node_size-Chain h a e b bs c, r)

alloc_loop-stop :
    (fuel : ℕ) (h : Store) (a n : ℕ)
    → at_end h a ≡ true
    → alloc_loop (suc fuel) h a n ≡ some (none, h)
unfolding alloc_loop
alloc_loop-stop fuel h a n e = rw (e, alloc_loop)

module _ (fuel : ℕ) (h : Store) (a n : ℕ) (go : at_end h a ≡ false) where
  alloc_loop-take :
      ((h a).is_free && leb n (node_size h a)) ≡ true
      → alloc_loop (suc fuel) h a n ≡ some (some (add64 a header), take_node h a n)
  unfolding alloc_loop
  alloc_loop-take t = rw (go, alloc_loop) (rw (t, alloc_loop))

  alloc_loop-next :
      ((h a).is_free && leb n (node_size h a)) ≡ false
      → alloc_loop (suc fuel) h a n ≡ alloc_loop fuel h (h a).next n
  unfolding alloc_loop
  alloc_loop-next t = rw (go, alloc_loop) (rw (t, alloc_loop))

-- The step over a block that is not handed out.
module _ (h : Store) (a e n : ℕ) (b : Block) (bs : List Block) (c : Chain h a (b ∷ bs) e) where
  test-Chain : ((h a).is_free && leb n (node_size h a)) ≡ (b.free && leb n b.size)
  test-Chain = ap₂ (λ f s. f && leb n s) c.2 (node_size-Chain h a e b bs c)

  Allocated-cons :
      (r : Option (Option ℕ × Store)) (o : Option (ℕ × List Block))
      → (b.free && leb n b.size) ≡ false
      → alloc_blocks n (a + (header + b.size)) bs ≡ o
      → Allocated h (a + (header + b.size)) e r o
      → Allocated h a e r (alloc_blocks n a (b ∷ bs))
  Allocated-cons r none t q k = subst (Allocated h a e r) (sym (alloc_blocks-none n a b bs t q)) k
  Allocated-cons r (some (p, bs')) t q (h', runs, chain, frame) =
      let same = frame a (inl (omega arith)) in
      subst (Allocated h a e r) (sym (alloc_blocks-some n a b bs t q)) (
        h',
        runs,
        (
          c.0,
          ap (λ x. x.magic) same ∙ c.1,
          ap (λ x. x.is_free) same ∙ c.2,
          ap (λ x. x.next) same ∙ c.3,
          chain,
        ),
        λ x l. frame x (ground (arith, l)),
      )

-- With more fuel than blocks, the loop does what first fit does.
pub alloc_loop-refines :
    (fuel : ℕ) (h : Store) (a e n : ℕ) (bs : List Block)
    → Chain h a bs e
    → length bs < fuel
    → Allocated h a e (alloc_loop fuel h a n) (alloc_blocks n a bs)
alloc_loop-refines zero h a e n bs c l = absurd (omega arith)
alloc_loop-refines (suc fuel) h a e n [] c l =
    unfold alloc_blocks in alloc_loop-stop fuel h a n (at_end-Chain_nil h a e c)
alloc_loop-refines (suc fuel) h a e n (b ∷ bs) c l = elim (Bool-cases (b.free && leb n b.size)) [
  | inl t ↦
      let go = at_end-Chain h a e b bs c in
      let fits : n ≤ b.size = ground (arith, t) in
      let top : add64 a header ≡ a + header = omega (arith, bounds h a e n b bs c fits) in
      subst (Allocated h a e (alloc_loop (suc fuel) h a n)) (sym (alloc_blocks-take n a b bs t)) (
        take_node h a n,
        alloc_loop-take fuel h a n go (test-Chain h a e n b bs c ∙ t)
            ∙ ap (λ p. some (some p, take_node h a n)) top,
        take_node-Chain h a e n b bs c fits,
        take_node-frame h a e n b bs c fits,
      )
  | inr t ↦
      let go = at_end-Chain h a e b bs c in
      let step =
        alloc_loop-next fuel h a n go (test-Chain h a e n b bs c ∙ t)
        ∙ ap (λ x. alloc_loop fuel h x n) c.3 in
      let ih = alloc_loop-refines fuel h (a + (header + b.size)) e n bs c.4 (omega arith) in
      subst (λ r. Allocated h a e r (alloc_blocks n a (b ∷ bs))) (sym step)
        (Allocated-cons h a e n b bs c _ _ t refl ih)
]

-- The blocks of a chain take up 16 bytes each, at least.
pub length-Chain : (h : Store) (a e : ℕ) (bs : List Block) → Chain h a bs e → a + 16 * length bs ≤ e
length-Chain h a e [] c = omega arith
length-Chain h a e (b ∷ bs) c = omega (arith, length-Chain h (a + (header + b.size)) e bs c.4)

-- A region that carries blocks from its base to its end node.
pub record IsRegion (h : Store) (r : HeapRegion) (bs : List Block) : Type 0 where
  pub room : 2 * header ≤ r.size
  pub chain : Chain h r.base bs (r.base + (r.size - header))

-- `alloc_region` ends, and does on the nodes of a region what first fit does on its blocks: it
-- answers NULL and writes nothing where no free block is large enough; else it answers the address
-- behind the header of the first one that is, leaves a region that carries the blocks of first
-- fit, and writes no node outside the region.
pub alloc_region-refines :
    (h : Store) (r : HeapRegion) (n : ℕ) (bs : List Block)
    → IsRegion h r bs
    → Allocated h r.base
        (r.base + (r.size - header))
        (alloc_region h r n)
        (alloc_blocks n r.base bs)
unfolding alloc_region
alloc_region-refines h r n bs i =
    alloc_loop-refines r.size h r.base (r.base + (r.size - header)) n bs i.chain
      (omega (arith, i.room, length-Chain h r.base (r.base + (r.size - header)) bs i.chain))
