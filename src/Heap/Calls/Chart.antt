-- ===== src/Heap/Calls/Chart.antt =====
-- The regions of the heap with the blocks that each carries.
use atom_os.Prelude.{
  ℕ, ◌+◌, ◌-◌, ◌≡◌, ◌<◌, ◌≤◌, ◌∙◌, ◌⊎◌, inl, inr, ap, sym, refl, false, Option, none, some, List,
  [], ◌∷◌, arith, All, Option-cases,
}
use atom_os.Heap.Node.{Store, header}
use atom_os.Heap.Blocks.{Block, Chain, holds, free_blocks}
use atom_os.Heap.Blocks.Step.{free_blocks-behind, behind}
use atom_os.Heap.Blocks.Laws.{size_at, size_at_cases}
use atom_os.Heap.Region.{HeapRegion}
use atom_os.Heap.Region.Chain.{Chain-bounds}
use atom_os.Heap.Region.Alloc.{IsRegion}

abbrev pub Chart : Type 0
Chart = List (HeapRegion × List Block)

abbrev pub regions_of : Chart → List HeapRegion
regions_of [] = []
regions_of ((r, bs) ∷ cs) = r ∷ regions_of cs

-- No byte lies in both regions.
abbrev pub Apart : HeapRegion → HeapRegion → Type 0
Apart r s = (r.base + r.size ≤ s.base) ⊎ (s.base + s.size ≤ r.base)

-- No node of the region is at the address.
abbrev pub Outside : HeapRegion → ℕ → Type 0
Outside r x = (x < r.base) ⊎ (r.base + (r.size - header) ≤ x)

-- Every region carries its blocks, and no two regions overlap.
abbrev pub IsCharted : Store → Chart → Type 0
IsCharted h [] = Unit
IsCharted h ((r, bs) ∷ cs) = IsRegion h r bs × All (λ c. Apart r c.0) cs × IsCharted h cs

-- The size of the live block whose payload begins at `p`.
unfoldable pub live : ℕ → Chart → Option ℕ
live p [] = none
live p ((r, bs) ∷ cs) = elim (size_at p r.base bs) [ some m ↦ some m | none ↦ live p cs ]

pub live_here :
    (p m : ℕ) (r : HeapRegion) (bs : List Block) (cs : Chart)
    → size_at p r.base bs ≡ some m
    → live p ((r, bs) ∷ cs) ≡ some m
unfolding live
live_here p m r bs cs e = rw (e, live)

pub live_there :
    (p : ℕ) (r : HeapRegion) (bs : List Block) (cs : Chart)
    → size_at p r.base bs ≡ none
    → live p ((r, bs) ∷ cs) ≡ live p cs
unfolding live
live_there p r bs cs e = rw (e, live)

-- What is live depends on each part.
pub live_cong :
    (p : ℕ) (r : HeapRegion) (bs bs' : List Block) (cs cs' : Chart)
    → size_at p r.base bs' ≡ size_at p r.base bs
    → live p cs' ≡ live p cs
    → live p ((r, bs') ∷ cs') ≡ live p ((r, bs) ∷ cs)
live_cong p r bs bs' cs cs' e f = elim (Option-cases (size_at p r.base bs)) [
  | inl n ↦ live_there p r bs' cs' (e ∙ n) ∙ f ∙ sym (live_there p r bs cs n)
  | inr (m, s) ↦ live_here p m r bs' cs' (e ∙ s) ∙ sym (live_here p m r bs cs s)
]

-- A chain depends only on its own nodes.
pub Chain-within :
    (h g : Store) (a e : ℕ) (bs : List Block)
    → ((x : ℕ) → a ≤ x → x ≤ e → g x ≡ h x)
    → Chain h a bs e
    → Chain g a bs e
Chain-within h g a e [] same c =
    let s = same a (omega arith) (omega arith) in
    (
      c.0,
      c.1,
      ap (λ n. n.magic) s ∙ c.2,
      ap (λ n. n.is_free) s ∙ c.3,
      ap (λ n. n.next) s ∙ c.4,
      c.5,
    )
Chain-within h g a e (b ∷ bs) same c =
    let r = Chain-bounds h (a + (header + b.size)) e bs c.4 in
    let s = same a (omega arith) (omega (arith, r)) in
    (
      c.0,
      ap (λ n. n.magic) s ∙ c.1,
      ap (λ n. n.is_free) s ∙ c.2,
      ap (λ n. n.next) s ∙ c.3,
      Chain-within h g (a + (header + b.size)) e bs (λ x l m. same x (omega arith) m) c.4,
    )

pub IsRegion-within :
    (h g : Store) (r : HeapRegion) (bs : List Block)
    → ((x : ℕ) → r.base ≤ x → x < r.base + r.size → g x ≡ h x)
    → IsRegion h r bs
    → IsRegion g r bs
IsRegion-within h g r bs same i = record {
  room = i.room;
  chain =
      Chain-within h g r.base (r.base + (r.size - header)) bs
        (λ x l m. same x l (omega (arith, i.room))) i.chain;
}

-- What is written in one region leaves the regions apart from it alone.
pub IsCharted-Apart :
    (h g : Store) (r : HeapRegion) (cs : Chart)
    → All (λ c. Apart r c.0) cs
    → ((x : ℕ) → Outside r x → g x ≡ h x)
    → IsCharted h cs
    → IsCharted g cs
IsCharted-Apart h g r [] off same i = tt
IsCharted-Apart h g r ((s, bs) ∷ cs) off same i = (
  IsRegion-within h g s bs (λ x l m. same x (ground (arith, off.0))) i.0,
  i.1,
  IsCharted-Apart h g r cs off.1 same i.2,
)

none≢some : {A : Type 0} {a : A} → (none ≡ some a) → ⊥
none≢some x = cc

-- A live payload lies in its region.
pub size_at_within :
    (h : Store) (p a e m : ℕ) (bs : List Block)
    → Chain h a bs e
    → size_at p a bs ≡ some m
    → (a + header ≤ p) × (p ≤ e)
size_at_within h p a e m [] c s = absurd (none≢some {a = m} (unfold size_at in s))
size_at_within h p a e m (b ∷ bs) c s = elim (size_at_cases p a m b bs s) [
  | inl (q, n) ↦
      let r = Chain-bounds h (a + (header + b.size)) e bs c.4 in (omega arith, omega (arith, r))
  | inr (ne, t) ↦
      let r = size_at_within h p (a + (header + b.size)) e m bs c.4 t in
      (omega (arith, r), omega (arith, r))
]

-- A pointer that lies outside a region is not live in it.
pub size_at_outside :
    (h : Store) (p : ℕ) (r : HeapRegion) (bs : List Block)
    → IsRegion h r bs
    → (p < r.base) ⊎ (r.base + r.size ≤ p)
    → size_at p r.base bs ≡ none
size_at_outside h p r bs i off = elim (Option-cases (size_at p r.base bs)) [
  | inl n ↦ n
  | inr (m, s) ↦
      let w = size_at_within h p r.base (r.base + (r.size - header)) m bs i.chain s in
      absurd (ground (arith, off, w, i.room))
]

pub live_outside :
    (h : Store) (p : ℕ) (cs : Chart)
    → IsCharted h cs
    → All (λ c. (p < c.0.base) ⊎ (c.0.base + c.0.size ≤ p)) cs
    → live p cs ≡ none
live_outside h p [] i off = unfold live in refl
live_outside h p ((r, bs) ∷ cs) i off =
    live_there p r bs cs (size_at_outside h p r bs i.0 off.0) ∙ live_outside h p cs i.2 off.1

-- The release finds no block for a pointer outside the chain.
pub free_blocks_outside :
    (h : Store) (p a e : ℕ) (bs : List Block)
    → Chain h a bs e
    → (p < a) ⊎ (e < p)
    → free_blocks p a bs ≡ none
free_blocks_outside h p a e [] c off = unfold free_blocks in refl
free_blocks_outside h p a e (b ∷ bs) c off =
    let r = Chain-bounds h (a + (header + b.size)) e bs c.4 in
    let t : holds p a b ≡ false = ground (arith, off, r) in
    free_blocks-behind p a b bs t
    ∙ ap (behind p a b bs)
        (free_blocks_outside h p (a + (header + b.size)) e bs c.4 (ground (arith, off, r)))
    ∙ (unfold behind in refl)
