-- ===== src/Heap/Region/Chain.antt =====
-- The nodes of a region read as blocks.
use atom_os.Prelude.{ℕ, ◌+◌, ◌≡◌, ◌≢◌, ◌<◌, ◌≤◌, ◌∙◌, ap, true, false, List, [], ◌∷◌, arith, word}
use atom_os.Heap.Node.{HeapNode, Store, header, put, node_size}
use atom_os.Heap.Blocks.{Block, Chain}
use atom_os.Heap.Region.{at_end}

-- A chain runs up to its end node, which lies in the address space.
pub Chain-bounds : (h : Store) (a e : ℕ) (bs : List Block) → Chain h a bs e → (a ≤ e) × (e < word)
Chain-bounds h a e [] c = (omega arith, c.5)
Chain-bounds h a e (b ∷ bs) c =
    let r = Chain-bounds h (a + (header + b.size)) e bs c.4 in (omega arith, r.1)

-- A chain depends only on the nodes from its start on.
pub Chain-frame :
    (h g : Store) (a e : ℕ) (bs : List Block)
    → ((x : ℕ) → a ≤ x → g x ≡ h x)
    → Chain h a bs e
    → Chain g a bs e
Chain-frame h g a e [] same c =
    let s = same a (omega arith) in
    (
      c.0,
      c.1,
      ap (λ n. n.magic) s ∙ c.2,
      ap (λ n. n.is_free) s ∙ c.3,
      ap (λ n. n.next) s ∙ c.4,
      c.5,
    )
Chain-frame h g a e (b ∷ bs) same c =
    let s = same a (omega arith) in
    (
      c.0,
      ap (λ n. n.magic) s ∙ c.1,
      ap (λ n. n.is_free) s ∙ c.2,
      ap (λ n. n.next) s ∙ c.3,
      Chain-frame h g (a + (header + b.size)) e bs (λ x l. same x (omega arith)) c.4,
    )

pub put_self : (h : Store) (a : ℕ) (n : HeapNode) → put h a n a ≡ n
unfolding put
put_self h a n = ground arith

pub put_ne : (h : Store) (a x : ℕ) (n : HeapNode) → x ≢ a → put h a n x ≡ h x
unfolding put
put_ne h a x n d = ground arith

module _ (h : Store) (a e : ℕ) (b : Block) (bs : List Block) (c : Chain h a (b ∷ bs) e) where
  pub node_size-Chain : node_size h a ≡ b.size
  node_size-Chain =
      let r = Chain-bounds h (a + (header + b.size)) e bs c.4 in ground (arith, c.3, r)

  pub at_end-Chain : at_end h a ≡ false
  at_end-Chain = ground (arith, c)

pub at_end-Chain_nil : (h : Store) (a e : ℕ) → Chain h a [] e → at_end h a ≡ true
at_end-Chain_nil h a e c = ground (arith, c)
