-- ===== src/Pmm/Alloc/Taken.antt =====
-- The block that `pmm_alloc` takes out of a list of regions, and insertion near the front of a list.
use atom_os.Prelude.{
  ℕ, ◌+◌, ◌%◌, ◌<◌, ◌≡◌, refl, true, false, List, [], ◌∷◌, ◌++◌, arith, bit, word,
}
use atom_os.Pmm.Region.{MemoryRegion, is_usable, within, usable_at, held_at}
use atom_os.Pmm.Alloc.{Mallocs, insert_at}

pub insert_at-zero :
    (rs : List MemoryRegion) (r : MemoryRegion) (m : Mallocs)
    → insert_at rs 0 r (true ∷ m) ≡ (true, r ∷ rs, m)
unfolding insert_at
insert_at-zero [] r m = refl
insert_at-zero (s ∷ rs) r m = ground arith

pub insert_at-one :
    (s : MemoryRegion) (rs : List MemoryRegion) (r : MemoryRegion) (m : Mallocs)
    → insert_at (s ∷ rs) 1 r (true ∷ m) ≡ (true, s ∷ r ∷ rs, m)
unfolding insert_at
insert_at-one s [] r m = refl
insert_at-one s (t ∷ rs) r m = ground arith

-- The block of `n` bytes at `p` was taken out of the usable regions of `rs`, and nothing else.
pub record Taken (p n : ℕ) (rs out : List MemoryRegion) : Type 0 where
  pub usable : (a : ℕ) → usable_at a out + bit (within a p n) ≡ usable_at a rs
  pub held : (a : ℕ) → held_at a out ≡ held_at a rs + bit (within a p n)

-- The list has a region that is the block, and that is not usable.
pub record Holds (p n : ℕ) (out : List MemoryRegion) : Type 0 where
  pub before : List MemoryRegion
  pub region : MemoryRegion
  pub after : List MemoryRegion
  pub splits : out ≡ before ++ region ∷ after
  pub base : region.base ≡ p
  pub size : region.size ≡ n
  pub held : is_usable region.type ≡ false

-- A block size: whole pages, not zero, a `size_t`.
pub record IsBlockSize (n : ℕ) : Type 0 where
  pub positive : 0 < n
  pub pages : n % 4096 ≡ 0
  pub fits_word : n < word
