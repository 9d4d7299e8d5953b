-- ===== src/Heap/Blocks/Laws.antt =====
-- First fit and release, seen by the callers: which pointers are live, and how large their blocks
-- are.
use atom_os.Prelude.{
  ℕ, ◌+◌, ◌-◌, ◌≡◌, ◌≢◌, ◌<◌, ◌≤◌, ◌∙◌, ◌⊎◌, ap, sym, subst, refl, true, false, not, ◌&&◌, ◌==◌,
  Option, none, some, List, [], ◌∷◌, arith, leb, Bool-cases, inl, inr, if◌then◌else◌, All,
}
use native.Mathlib.Decide.{ℕ_discrete, dec_lt}
use atom_os.Heap.Node.{header, min_size}
use atom_os.Heap.Blocks.Step.{
  taken-split, taken-whole, alloc_blocks-take, alloc_blocks-none, alloc_blocks-some, behind,
  free_blocks-here, free_blocks-behind,
}
use atom_os.Heap.Blocks.{Block, block, taken, alloc_blocks, holds, starts, merge_front, free_blocks}

-- The size of the live block whose payload begins at `p`.
unfoldable pub size_at : ℕ → ℕ → List Block → Option ℕ
size_at p a [] = none
size_at p a (b ∷ bs) =
    if not b.free && p == a + header then some b.size else size_at p (a + (header + b.size)) bs

pub size_at_below : (p a : ℕ) (bs : List Block) → p < a + header → size_at p a bs ≡ none
unfolding size_at
size_at_below p a [] l = refl
size_at_below p a (b ∷ bs) l = ground (arith, size_at_below p (a + (header + b.size)) bs)

-- What an allocation of `n` bytes owes the callers.
pub record Allot (n a p : ℕ) (bs bs' : List Block) : Type 0 where
  pub size : ℕ
  pub enough : n ≤ size
  pub fresh : size_at p a bs ≡ none
  pub live : size_at p a bs' ≡ some size
  pub others : (q : ℕ) → q ≢ p → size_at q a bs' ≡ size_at q a bs
  pub above : a + header ≤ p

-- A free block, and a pointer to another block, are passed over.
size_at_free :
    (q a : ℕ) (b : Block) (bs : List Block)
    → b.free ≡ true
    → size_at q a (b ∷ bs) ≡ size_at q (a + (header + b.size)) bs
unfolding size_at
size_at_free q a b bs f = rw f

size_at_other :
    (q a : ℕ) (b : Block) (bs : List Block)
    → q ≢ a + header
    → size_at q a (b ∷ bs) ≡ size_at q (a + (header + b.size)) bs
unfolding size_at
size_at_other q a b bs ne = ground arith

size_at_self : (a n : ℕ) (bs : List Block) → size_at (a + header) a (block false n ∷ bs) ≡ some n
unfolding size_at
size_at_self a n bs = ground arith

size_at_move : (q : ℕ) (bs : List Block) {a c : ℕ} → a ≡ c → size_at q a bs ≡ size_at q c bs
size_at_move q bs e = ap (λ x. size_at q x bs) e

module _ (n a : ℕ) (b : Block) (bs : List Block) (t : (b.free && leb n b.size) ≡ true) where
  is_free : b.free ≡ true
  is_free = ground arith

  fresh_here : size_at (a + header) a (b ∷ bs) ≡ none
  fresh_here =
      size_at_free (a + header) a b bs is_free
      ∙ size_at_below (a + header) (a + (header + b.size)) bs (omega arith)

  taken-Allot : Allot n a (a + header) (b ∷ bs) (taken n b bs)
  taken-Allot = elim (Bool-cases (leb (min_size + header) (b.size - n))) [
    | inl l ↦ subst (Allot n a (a + header) (b ∷ bs)) (sym (taken-split n b bs l)) (record {
      size = n;
      enough = omega arith;
      fresh = fresh_here;
      live = size_at_self a n (block true (b.size - n - header) ∷ bs);
      others = λ q ne.
          size_at_other q a (block false n) (block true (b.size - n - header) ∷ bs) ne
          ∙ size_at_free q (a + (header + n)) (block true (b.size - n - header)) bs refl
          ∙ size_at_move q bs (ground (arith, l))
          ∙ sym (size_at_free q a b bs is_free);
      above = omega arith;
    })
    | inr l ↦ subst (Allot n a (a + header) (b ∷ bs)) (sym (taken-whole n b bs l)) (record {
      size = b.size;
      enough = ground (arith, t);
      fresh = fresh_here;
      live = size_at_self a b.size bs;
      others = λ q ne.
          size_at_other q a (block false b.size) bs ne ∙ sym (size_at_free q a b bs is_free);
      above = omega arith;
    })
  ]

-- A block in front that is not handed out.
size_at_cong :
    (q a : ℕ) (b : Block) (bs cs : List Block)
    → size_at q (a + (header + b.size)) cs ≡ size_at q (a + (header + b.size)) bs
    → size_at q a (b ∷ cs) ≡ size_at q a (b ∷ bs)
unfolding size_at
size_at_cong q a b bs cs e = ap (λ x. if not b.free && q == a + header then some b.size else x) e

size_at_later :
    (q a : ℕ) (b : Block) (bs : List Block)
    → a + header < q
    → size_at q a (b ∷ bs) ≡ size_at q (a + (header + b.size)) bs
size_at_later q a b bs l = size_at_other q a b bs (λ e. absurd (omega arith))

Allot-cons :
    (n a p : ℕ) (b : Block) (bs bs' : List Block)
    → Allot n (a + (header + b.size)) p bs bs'
    → Allot n a p (b ∷ bs) (b ∷ bs')
Allot-cons n a p b bs bs' k = record {
  size = k.size;
  enough = k.enough;
  fresh = size_at_later p a b bs (omega (arith, k.above)) ∙ k.fresh;
  live = size_at_later p a b bs' (omega (arith, k.above)) ∙ k.live;
  others = λ q ne. size_at_cong q a b bs bs' (k.others q ne);
  above = omega (arith, k.above);
}

-- What first fit owes its callers: a block, or no free block that is large enough.
abbrev pub Served : ℕ → ℕ → List Block → Option (ℕ × List Block) → Type 0
Served n a bs none = All (λ b. b.free ≡ true → b.size < n) bs
Served n a bs (some (p, bs')) = Allot n a p bs bs'

later :
    (n a : ℕ) (b : Block) (bs : List Block)
    → (b.free && leb n b.size) ≡ false
    → (o : Option (ℕ × List Block)) → alloc_blocks n (a + (header + b.size)) bs ≡ o
    → Served n (a + (header + b.size)) bs o
    → Served n a (b ∷ bs) (alloc_blocks n a (b ∷ bs))
later n a b bs t none e k =
    subst (Served n a (b ∷ bs)) (sym (alloc_blocks-none n a b bs t e))
      (let small : b.free ≡ true → b.size < n = ground arith in (small, k))
later n a b bs t (some (p, bs')) e k =
    subst (Served n a (b ∷ bs)) (sym (alloc_blocks-some n a b bs t e)) (Allot-cons n a p b bs bs' k)

pub alloc_blocks-Served : (n a : ℕ) (bs : List Block) → Served n a bs (alloc_blocks n a bs)
alloc_blocks-Served n a [] = unfold alloc_blocks in tt
alloc_blocks-Served n a (b ∷ bs) = elim (Bool-cases (b.free && leb n b.size)) [
  | inl t ↦
      subst (Served n a (b ∷ bs)) (sym (alloc_blocks-take n a b bs t)) (taken-Allot n a b bs t)
  | inr t ↦
      later n a b bs t (alloc_blocks n (a + (header + b.size)) bs) refl
        (alloc_blocks-Served n (a + (header + b.size)) bs)
]

-- Merging two free blocks changes nothing for the callers.
size_at-merge_front :
    (q a : ℕ) (b : Block) (bs : List Block) → size_at q a (merge_front b bs) ≡ size_at q a (b ∷ bs)
size_at-merge_front q a b [] = refl
size_at-merge_front q a b (d ∷ bs) = elim (Bool-cases (b.free && d.free)) [
  | inr f ↦ rw f
  | inl f ↦
      let bf : b.free ≡ true = ground arith in
      let df : d.free ≡ true = ground arith in
      let merged : merge_front b (d ∷ bs) ≡ block true (b.size + (header + d.size)) ∷ bs = rw f in
      ap (size_at q a) merged
      ∙ size_at_free q a (block true (b.size + (header + d.size))) bs refl
      ∙ size_at_move q bs (omega arith)
      ∙ sym (size_at_free q (a + (header + b.size)) d bs df)
      ∙ sym (size_at_free q a b (d ∷ bs) bf)
]

-- What the release of the live pointer `p` owes the callers.
abbrev pub Dropped : ℕ → ℕ → List Block → Option (List Block) → Type 0
Dropped p a bs none = ⊥
Dropped p a bs (some bs') =
    (size_at p a bs' ≡ none) × ((q : ℕ) → q ≢ p → size_at q a bs' ≡ size_at q a bs)

drop_here :
    (p a : ℕ) (b : Block) (bs : List Block)
    → p ≡ a + header
    → 0 < b.size
    → Dropped p a (b ∷ bs) (free_blocks p a (b ∷ bs))
drop_here p a b bs e pos =
    let t : holds p a b ≡ true = ground arith in
    subst (Dropped p a (b ∷ bs)) (sym (free_blocks-here p a b bs t)) (
      size_at-merge_front p a (block true b.size) bs
          ∙ size_at_free p a (block true b.size) bs refl
          ∙ size_at_below p (a + (header + b.size)) bs (omega arith),
      λ q ne.
          size_at-merge_front q a (block true b.size) bs
          ∙ size_at_free q a (block true b.size) bs refl
          ∙ sym (size_at_other q a b bs (λ e'. ne (e' ∙ sym e))),
    )

drop_behind :
    (p a : ℕ) (b : Block) (bs : List Block) (o : Option (List Block))
    → p ≢ a + header
    → Dropped p (a + (header + b.size)) bs o
    → Dropped p a (b ∷ bs) (behind p a b bs o)
unfolding behind
drop_behind p a b bs none ne d = d
drop_behind p a b bs (some cs) ne (gone, others) =
    subst (λ l. (size_at p a l ≡ none) × ((q : ℕ) → q ≢ p → size_at q a l ≡ size_at q a (b ∷ bs)))
      refl
      (
        same p ∙ size_at_other p a b cs ne ∙ gone,
        λ q nq. same q ∙ size_at_cong q a b bs cs (others q nq),
      )
  where
    front : List Block
    front = if starts p (a + (header + b.size)) bs then merge_front b cs else b ∷ cs

    same : (q : ℕ) → size_at q a front ≡ size_at q a (b ∷ cs)
    same q = elim (Bool-cases (starts p (a + (header + b.size)) bs)) [
      | inl t ↦ rw t (size_at-merge_front q a b cs)
      | inr t ↦ rw t
    ]

size_at_head :
    (p a m : ℕ) (b : Block) (bs : List Block)
    → b.free ≡ false
    → p ≡ a + header
    → size_at p a (b ∷ bs) ≡ some m
    → m ≡ b.size
unfolding size_at
size_at_head p a m b bs f q e = ground (arith, e)

-- A live pointer is the start of its block, or lies behind the first block.
pub size_at_cases :
    (p a m : ℕ) (b : Block) (bs : List Block)
    → size_at p a (b ∷ bs) ≡ some m
    → ((p ≡ a + header) × (m ≡ b.size))
      ⊎ ((p ≢ a + header) × (size_at p (a + (header + b.size)) bs ≡ some m))
size_at_cases p a m b bs e = elim (ℕ_discrete p (a + header)) [
  | yes q ↦ elim (Bool-cases b.free) [
    | inl f ↦
        let out =
          size_at_free p a b bs f ∙ size_at_below p (a + (header + b.size)) bs (omega arith) in
        absurd (none≢some (sym out ∙ e))
    | inr f ↦ inl (q, self f q)
  ]
  | no ne ↦ inr (ne, sym (size_at_other p a b bs ne) ∙ e)
]
  where
    none≢some : (none ≡ some m) → ⊥
    none≢some x = cc

    self : b.free ≡ false → p ≡ a + header → m ≡ b.size
    self f q = size_at_head p a m b bs f q e

not_held :
    (p a m : ℕ) (b : Block) (bs : List Block)
    → size_at p (a + (header + b.size)) bs ≡ some m
    → holds p a b ≡ false
not_held p a m b bs e = elim (dec_lt p (a + (header + b.size) + header)) [
  | yes l ↦ absurd (none≢some (sym (size_at_below p (a + (header + b.size)) bs l) ∙ e))
  | no l ↦ ground arith
]
  where
    none≢some : (none ≡ some m) → ⊥
    none≢some x = cc

-- The release of a live pointer finds its block: the pointer is live no more, and every other
-- pointer is as before.
pub free_blocks-Dropped :
    (p a m : ℕ) (bs : List Block)
    → size_at p a bs ≡ some m
    → 0 < m
    → Dropped p a bs (free_blocks p a bs)
free_blocks-Dropped p a m [] e pos = absurd (nothing e)
  where
    nothing : size_at p a [] ≡ some m → ⊥
    nothing e = unfold size_at in cc
free_blocks-Dropped p a m (b ∷ bs) e pos = elim (size_at_cases p a m b bs e) [
  | inl (q, s) ↦ drop_here p a b bs q (omega arith)
  | inr (ne, e') ↦
      let t = not_held p a m b bs e' in
      subst (Dropped p a (b ∷ bs)) (sym (free_blocks-behind p a b bs t)) (
        drop_behind p a b bs (free_blocks p (a + (header + b.size)) bs) ne
          (free_blocks-Dropped p (a + (header + b.size)) m bs e' pos))
]
