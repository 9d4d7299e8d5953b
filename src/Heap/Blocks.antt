-- ===== src/Heap/Blocks.antt =====
-- What a heap region stands for: blocks that lie one behind the other, each behind a header.
pub mod Step
pub mod Laws
use atom_os.Prelude.{
  ℕ, ◌+◌, ◌-◌, ◌≡◌, ◌≢◌, ◌<◌, ◌≤◌, Bool, true, false, ◌&&◌, Option, none, some, List, [], ◌∷◌, ltb,
  leb, ◌==◌, if◌then◌else◌, word,
}
use atom_os.Heap.Node.{Store, HeapNode, heap_magic, header, min_size}

pub record Block : Type 0 where
  pub free : Bool
  pub size : ℕ

abbrev pub block : Bool → ℕ → Block
block f n = record { free = f; size = n }

-- From the node at `a` on, the nodes carry the blocks, up to the end node at `e`.
abbrev pub Chain : Store → ℕ → List Block → ℕ → Type 0
Chain h a [] e =
    (a ≡ e) × (a ≢ 0) × ((h a).magic ≡ 0) × ((h a).is_free ≡ false) × ((h a).next ≡ 0) × (e < word)
Chain h a (b ∷ bs) e =
    (a ≢ 0)
    × ((h a).magic ≡ heap_magic)
    × ((h a).is_free ≡ b.free)
    × ((h a).next ≡ a + (header + b.size))
    × Chain h (a + (header + b.size)) bs e

-- The blocks that stand for one that is handed out for `n` bytes: split, if the rest can hold a
-- node of its own.
unfoldable pub taken : ℕ → Block → List Block → List Block
taken n b bs =
    if leb (min_size + header) (b.size - n)
    then block false n ∷ block true (b.size - n - header) ∷ bs
    else block false b.size ∷ bs

-- First fit over the blocks from address `a` on: the payload that is handed out, and the blocks
-- after that.
unfoldable pub alloc_blocks : ℕ → ℕ → List Block → Option (ℕ × List Block)
alloc_blocks n a [] = none
alloc_blocks n a (b ∷ bs) = elim (b.free && leb n b.size) [
  | true ↦ some (a + header, taken n b bs)
  | false ↦ elim (alloc_blocks n (a + (header + b.size)) bs) [
    | none ↦ none
    | some (p, bs') ↦ some (p, b ∷ bs')
  ]
]

-- A free block in front is merged with a free block behind it.
abbrev pub merge_front : Block → List Block → List Block
merge_front b [] = b ∷ []
merge_front b (c ∷ bs) =
    if b.free && c.free then block true (b.size + (header + c.size)) ∷ bs else b ∷ c ∷ bs

-- The address `p` lies behind the start of the block at `a`, and in it.
abbrev pub holds : ℕ → ℕ → Block → Bool
holds p a b = ltb a p && ltb p (a + (header + b.size))

abbrev pub starts : ℕ → ℕ → List Block → Bool
starts p a [] = false
starts p a (b ∷ bs) = holds p a b

-- The block that holds the address `p` becomes free, and is merged with its free neighbours.
unfoldable pub free_blocks : ℕ → ℕ → List Block → Option (List Block)
free_blocks p a [] = none
free_blocks p a (b ∷ bs) = elim (holds p a b) [
  | true ↦ some (merge_front (block true b.size) bs)
  | false ↦ elim (free_blocks p (a + (header + b.size)) bs) [
    | none ↦ none
    | some bs' ↦ some (if starts p (a + (header + b.size)) bs then merge_front b bs' else b ∷ bs')
  ]
]
