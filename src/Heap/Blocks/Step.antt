-- ===== src/Heap/Blocks/Step.antt =====
-- The steps of first fit and of the release, as equations.
use atom_os.Prelude.{
  ℕ, ◌+◌, ◌-◌, ◌≡◌, true, false, ◌&&◌, Option, none, some, List, ◌∷◌, leb, if◌then◌else◌,
}
use atom_os.Heap.Node.{header, min_size}
use atom_os.Heap.Blocks.{Block, block, taken, alloc_blocks, holds, starts, merge_front, free_blocks}

module _ (n : ℕ) (b : Block) (bs : List Block) where
  pub taken-split :
      leb (min_size + header) (b.size - n) ≡ true
      → taken n b bs ≡ block false n ∷ block true (b.size - n - header) ∷ bs
  unfolding taken
  taken-split t = rw t

  pub taken-whole :
      leb (min_size + header) (b.size - n) ≡ false → taken n b bs ≡ block false b.size ∷ bs
  unfolding taken
  taken-whole t = rw t

module _ (n a : ℕ) (b : Block) (bs : List Block) where
  pub alloc_blocks-take :
      (b.free && leb n b.size) ≡ true → alloc_blocks n a (b ∷ bs) ≡ some (a + header, taken n b bs)
  unfolding alloc_blocks
  alloc_blocks-take t = rw (t, alloc_blocks)

  pub alloc_blocks-none :
      (b.free && leb n b.size) ≡ false
      → alloc_blocks n (a + (header + b.size)) bs ≡ none
      → alloc_blocks n a (b ∷ bs) ≡ none
  unfolding alloc_blocks
  alloc_blocks-none t e = rw (t, alloc_blocks) (rw (e, alloc_blocks))

  pub alloc_blocks-some :
      {p : ℕ} {bs' : List Block}
      → (b.free && leb n b.size) ≡ false
      → alloc_blocks n (a + (header + b.size)) bs ≡ some (p, bs')
      → alloc_blocks n a (b ∷ bs) ≡ some (p, b ∷ bs')
  unfolding alloc_blocks
  alloc_blocks-some t e = rw (t, alloc_blocks) (rw (e, alloc_blocks))

-- The release among the blocks behind the block `b` at `q`.
unfoldable pub behind : ℕ → ℕ → Block → List Block → Option (List Block) → Option (List Block)
behind ptr q b bs none = none
behind ptr q b bs (some bs') =
    some (if starts ptr (q + (header + b.size)) bs then merge_front b bs' else b ∷ bs')

module _ (ptr q : ℕ) (b : Block) (bs : List Block) where
  pub free_blocks-here :
      holds ptr q b ≡ true → free_blocks ptr q (b ∷ bs) ≡ some (merge_front (block true b.size) bs)
  unfolding free_blocks
  free_blocks-here t = rw (t, free_blocks)

  pub free_blocks-behind :
      holds ptr q b ≡ false
      → free_blocks ptr q (b ∷ bs) ≡ behind ptr q b bs (free_blocks ptr (q + (header + b.size)) bs)
  unfolding free_blocks behind
  free_blocks-behind t = rw (t, free_blocks)
