-- ===== src/Pmm/Init/Laws.antt =====
-- What `pmm_init` leaves usable.
use atom_os.Prelude.{
  ℕ, ◌+◌, ◌*◌, ◌/◌, ◌≤◌, ◌<◌, ◌≡◌, ◌≢◌, ◌∙◌, ◌⊎◌, refl, true, false, List, [], ◌∷◌, ◌++◌, arith,
  word, inl, inr, All, ◌==◌,
}
use native.Mathlib.Decide.{dec_le, dec_lt}
use atom_os.Pmm.Region.{MemoryRegion, is_usable, usable_at, OrderedFrom, IsOrdered}
use atom_os.Pmm.Counting.{usable_at-append}
use atom_os.Pmm.Init.{
  kernel_round, framebuffer_round, reserve_kernel, reserve_framebuffer, framebuffer_size, pmm_init,
}
use atom_os.Pmm.Init.Order.{reserve_kernel-Ordered, reserve_framebuffer-Ordered}

-- No region that is not usable lies on both sides of `k`.
abbrev pub NoneStraddles : ℕ → List MemoryRegion → Type 0
NoneStraddles k = All (λ r. (is_usable r.type ≡ true) ⊎ (k ≤ r.base) ⊎ (r.base + r.size ≤ k))

-- The counts of one region.
module _ (k a : ℕ) (r : MemoryRegion) (w : k < word) (q : 0 < r.size)
    (q' : r.base + r.size < word) where
  kernel_round-below : a < k → usable_at a (kernel_round k r) ≡ 0
  unfolding kernel_round usable_at
  kernel_round-below h = ground arith

  kernel_round-above :
      k ≤ a
      → (is_usable r.type ≡ true) ⊎ (k ≤ r.base) ⊎ (r.base + r.size ≤ k)
      → usable_at a (kernel_round k r) ≡ usable_at a (r ∷ [])
  unfolding kernel_round usable_at
  kernel_round-above h s = ground arith

  kernel_round-straddles :
      is_usable r.type ≡ false
      → r.base < k
      → k ≤ a
      → a < r.base + r.size
      → (usable_at a (r ∷ []) ≡ 0) × (usable_at a (kernel_round k r) ≡ 1)
  unfolding kernel_round usable_at
  kernel_round-straddles u b l h = (ground arith, ground arith)

module _ (s n a : ℕ) (r : MemoryRegion) (p : 0 < n) (w : s + n < word) (q : 0 < r.size)
    (q' : r.base + r.size < word) where
  framebuffer_round-in : s ≤ a → a < s + n → usable_at a (framebuffer_round s n r) ≡ 0
  unfolding framebuffer_round usable_at
  framebuffer_round-in h k = ground arith

  framebuffer_round-out :
      (a < s) ⊎ (s + n ≤ a) → usable_at a (framebuffer_round s n r) ≡ usable_at a (r ∷ [])
  unfolding framebuffer_round usable_at
  framebuffer_round-out h = ground arith

module _ (k a : ℕ) (w : k < word) where
  reserve_kernel-below :
      (lo : ℕ) (rs : List MemoryRegion)
      → OrderedFrom lo rs
      → a < k
      → usable_at a (reserve_kernel k rs) ≡ 0
  unfolding reserve_kernel
  reserve_kernel-below lo [] h l = unfold usable_at in refl
  reserve_kernel-below lo (r ∷ rs) h l = omega (
    arith,
    usable_at-append a (kernel_round k r) (reserve_kernel k rs),
    kernel_round-below k a r w h.1 h.2 l,
    reserve_kernel-below (r.base + r.size) rs h.3 l,
  )

  reserve_kernel-above :
      (lo : ℕ) (rs : List MemoryRegion)
      → OrderedFrom lo rs
      → NoneStraddles k rs
      → k ≤ a
      → usable_at a (reserve_kernel k rs) ≡ usable_at a rs
  unfolding reserve_kernel
  reserve_kernel-above lo [] h n l = refl
  reserve_kernel-above lo (r ∷ rs) h n l = omega (
    arith,
    usable_at-append a (kernel_round k r) (reserve_kernel k rs),
    usable_at-append a (r ∷ []) rs,
    kernel_round-above k a r w h.1 h.2 l n.0,
    reserve_kernel-above (r.base + r.size) rs h.3 n.1 l,
  )

  -- The loop that reserves the kernel makes the tail of every region that lies on both sides of the
  -- kernel's end usable, whatever the type of the region was: firmware tables or bad memory.
  pub reserve_kernel-straddles :
      (before : List MemoryRegion) (r : MemoryRegion) (after : List MemoryRegion)
      → 0 < r.size
      → r.base + r.size < word
      → is_usable r.type ≡ false
      → r.base < k
      → k ≤ a
      → a < r.base + r.size
      → (usable_at a (r ∷ []) ≡ 0) × (0 < usable_at a (reserve_kernel k (before ++ r ∷ after)))
  unfolding reserve_kernel
  reserve_kernel-straddles [] r after q q' u b l h =
      let s = kernel_round-straddles k a r w q q' u b l h in
      (s.0, omega (arith, s.1, usable_at-append a (kernel_round k r) (reserve_kernel k after)))
  reserve_kernel-straddles (x ∷ xs) r after q q' u b l h =
      let s = reserve_kernel-straddles xs r after q q' u b l h in
      (
        s.0,
        omega (
          arith,
          s.1,
          usable_at-append a (kernel_round k x) (reserve_kernel k (xs ++ r ∷ after)),
        ),
      )

module _ (s n a : ℕ) (p : 0 < n) (w : s + n < word) where
  reserve_framebuffer-in :
      (lo : ℕ) (rs : List MemoryRegion)
      → OrderedFrom lo rs
      → s ≤ a
      → a < s + n
      → usable_at a (reserve_framebuffer s n rs) ≡ 0
  unfolding reserve_framebuffer
  reserve_framebuffer-in lo [] h l k = unfold usable_at in refl
  reserve_framebuffer-in lo (r ∷ rs) h l k = omega (
    arith,
    usable_at-append a (framebuffer_round s n r) (reserve_framebuffer s n rs),
    framebuffer_round-in s n a r p w h.1 h.2 l k,
    reserve_framebuffer-in (r.base + r.size) rs h.3 l k,
  )

  reserve_framebuffer-out :
      (lo : ℕ) (rs : List MemoryRegion)
      → OrderedFrom lo rs
      → (a < s) ⊎ (s + n ≤ a)
      → usable_at a (reserve_framebuffer s n rs) ≡ usable_at a rs
  unfolding reserve_framebuffer
  reserve_framebuffer-out lo [] h o = refl
  reserve_framebuffer-out lo (r ∷ rs) h o = omega (
    arith,
    usable_at-append a (framebuffer_round s n r) (reserve_framebuffer s n rs),
    usable_at-append a (r ∷ []) rs,
    framebuffer_round-out s n a r p w h.1 h.2 o,
    reserve_framebuffer-out (r.base + r.size) rs h.3 o,
  )

-- As many bytes as the pages have that hold `pitch * height` bytes.
abbrev pub whole_pages : ℕ → ℕ → ℕ
whole_pages pitch height = (pitch * height + 4095) / 4096 * 4096

framebuffer_size-whole_pages :
    (pitch height : ℕ)
    → pitch * height + 4096 < word
    → framebuffer_size pitch height ≡ whole_pages pitch height
unfolding framebuffer_size
framebuffer_size-whole_pages pitch height h = ground arith

-- A kernel end and a framebuffer that a machine can have.
pub record IsLayout (kernel_end fb pitch height : ℕ) : Type 0 where
  pub kernel : kernel_end < word
  pub present : fb ≢ 0
  pub shown : 0 < pitch * height
  pub fits : fb + pitch * height + 4096 < word

module _ (k fb pitch height : ℕ) (rs : List MemoryRegion) (m : IsLayout k fb pitch height)
    (h : IsOrdered rs) where
  abbrev fb_size : ℕ
  fb_size = framebuffer_size pitch height

  low :
      (a : ℕ)
      → a < k
      → (a < fb) ⊎ (fb + fb_size ≤ a)
      → IsOrdered (reserve_kernel k rs)
      → 0 < fb_size
      → fb + fb_size < word
      → usable_at a (reserve_framebuffer fb fb_size (reserve_kernel k rs)) ≡ 0
  low a l out o pos top =
      reserve_framebuffer-out fb fb_size a pos top 0 (reserve_kernel k rs) o out
      ∙ reserve_kernel-below k a m.kernel 0 rs h l

  -- With an ordered firmware map, a kernel that ends below 2^64, and a framebuffer that is not at NULL, is
  -- not empty, and ends a page below 2^64 or earlier, `pmm_init` leaves an ordered list in which no address
  -- below the kernel's end and none in the pages of the framebuffer is usable. These pages are counted from
  -- its first byte and are as few as hold it. Where no other region than a usable one lies on both sides of
  -- the kernel's end, every address that is neither below that end nor in these pages is in as many usable
  -- regions as before.
  pub pmm_init_lem :
      IsOrdered (pmm_init k fb pitch height rs)
      × ((a : ℕ)
          → (a < k → usable_at a (pmm_init k fb pitch height rs) ≡ 0)
            × (fb ≤ a
                → a < fb + whole_pages pitch height
                → usable_at a (pmm_init k fb pitch height rs) ≡ 0)
            × (NoneStraddles k rs
                → k ≤ a
                → (a < fb) ⊎ (fb + whole_pages pitch height ≤ a)
                → usable_at a (pmm_init k fb pitch height rs) ≡ usable_at a rs))
  unfolding pmm_init
  pmm_init_lem =
      let b = framebuffer_size-whole_pages pitch height (omega (arith, m.fits)) in
      let pos : 0 < fb_size = omega (arith, b, m.shown) in
      let top : fb + fb_size < word = omega (arith, b, m.fits) in
      let off : (fb == 0) ≡ false = ground (arith, m.present) in
      let o = reserve_kernel-Ordered k m.kernel rs h in
      rw off (
        reserve_framebuffer-Ordered fb fb_size pos top (reserve_kernel k rs) o,
        λ a. (
          λ l. elim (dec_le fb a) [
            | yes x ↦ elim (dec_lt a (fb + fb_size)) [
              | yes y ↦ reserve_framebuffer-in fb fb_size a pos top 0 (reserve_kernel k rs) o x y
              | no y ↦ low a l (inr (omega arith)) o pos top
            ]
            | no x ↦ low a l (inl (omega arith)) o pos top
          ],
          λ x y.
              reserve_framebuffer-in fb fb_size a pos top 0 (reserve_kernel k rs) o x
                (omega (arith, b)),
          λ n l out.
              reserve_framebuffer-out fb fb_size a pos top 0 (reserve_kernel k rs) o
                (ground (arith, b, out))
              ∙ reserve_kernel-above k a m.kernel 0 rs h n l,
        ),
      )
