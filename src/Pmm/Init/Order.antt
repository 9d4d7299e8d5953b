-- ===== src/Pmm/Init/Order.antt =====
-- The loops of `pmm_init` keep an ordered list ordered.
use atom_os.Prelude.{ℕ, ◌+◌, ◌≤◌, ◌<◌, ◌≡◌, refl, List, [], ◌∷◌, ◌++◌, arith, word}
use atom_os.Pmm.Region.{MemoryRegion, OrderedFrom, IsOrdered}
use atom_os.Pmm.Init.{kernel_round, framebuffer_round, reserve_kernel, reserve_framebuffer}

-- The regions lie in order between `lo` and `hi`, and are not empty.
abbrev OrderedTo : ℕ → List MemoryRegion → ℕ → Type 0
OrderedTo lo [] hi = lo ≤ hi
OrderedTo lo (r ∷ rs) hi = (lo ≤ r.base) × (0 < r.size) × OrderedTo (r.base + r.size) rs hi

OrderedTo-le : (lo hi : ℕ) (xs : List MemoryRegion) → OrderedTo lo xs hi → lo ≤ hi
OrderedTo-le lo hi [] h = h
OrderedTo-le lo hi (x ∷ xs) h = omega (arith, OrderedTo-le (x.base + x.size) hi xs h.2)

Ordered-lower :
    (lo hi : ℕ) (ys : List MemoryRegion) → lo ≤ hi → OrderedFrom hi ys → OrderedFrom lo ys
Ordered-lower lo hi [] h o = tt
Ordered-lower lo hi (y ∷ ys) h o = (omega arith, o.1, o.2, o.3)

Ordered-glue :
    (lo hi : ℕ) (xs ys : List MemoryRegion)
    → OrderedTo lo xs hi
    → hi < word
    → OrderedFrom hi ys
    → OrderedFrom lo (xs ++ ys)
Ordered-glue lo hi [] ys t w o = Ordered-lower lo hi ys t o
Ordered-glue lo hi (x ∷ xs) ys t w o =
    let bound = OrderedTo-le (x.base + x.size) hi xs t.2 in
    (t.0, t.1, omega arith, Ordered-glue (x.base + x.size) hi xs ys t.2 w o)

-- A loop that puts regions in the place of each region, within its range, keeps the order.
module _ (round : MemoryRegion → List MemoryRegion) (loop : List MemoryRegion → List MemoryRegion)
    (stop : loop [] ≡ [])
    (step : (r : MemoryRegion) (rs : List MemoryRegion) → loop (r ∷ rs) ≡ round r ++ loop rs)
    (inside : (r : MemoryRegion)
      → 0 < r.size
      → r.base + r.size < word
      → OrderedTo r.base (round r) (r.base + r.size)) where
  loop-Ordered : (lo : ℕ) (rs : List MemoryRegion) → OrderedFrom lo rs → OrderedFrom lo (loop rs)
  loop-Ordered lo [] h = rw stop tt
  loop-Ordered lo (r ∷ rs) h = rw (step r rs) (
      Ordered-lower lo r.base (round r ++ loop rs) h.0 (
        Ordered-glue r.base (r.base + r.size) (round r) (loop rs) (inside r h.1 h.2) h.2
          (loop-Ordered (r.base + r.size) rs h.3)))

kernel_round-inside :
    (k : ℕ) (r : MemoryRegion)
    → k < word
    → 0 < r.size
    → r.base + r.size < word
    → OrderedTo r.base (kernel_round k r) (r.base + r.size)
unfolding kernel_round
kernel_round-inside k r w p q = ground arith

framebuffer_round-inside :
    (s n : ℕ) (r : MemoryRegion)
    → 0 < n
    → s + n < word
    → 0 < r.size
    → r.base + r.size < word
    → OrderedTo r.base (framebuffer_round s n r) (r.base + r.size)
unfolding framebuffer_round
framebuffer_round-inside s n r p w q q' = ground arith

module _ (k : ℕ) (w : k < word) where
  pub reserve_kernel-Ordered :
      (rs : List MemoryRegion) → IsOrdered rs → IsOrdered (reserve_kernel k rs)
  unfolding reserve_kernel
  reserve_kernel-Ordered =
      loop-Ordered (kernel_round k) (reserve_kernel k) refl (λ r rs. refl)
        (λ r. kernel_round-inside k r w) 0

module _ (s n : ℕ) (p : 0 < n) (w : s + n < word) where
  pub reserve_framebuffer-Ordered :
      (rs : List MemoryRegion) → IsOrdered rs → IsOrdered (reserve_framebuffer s n rs)
  unfolding reserve_framebuffer
  reserve_framebuffer-Ordered =
      loop-Ordered (framebuffer_round s n) (reserve_framebuffer s n) refl (λ r rs. refl)
        (λ r. framebuffer_round-inside s n r p w) 0
