-- ===== src/Pmm/Counting.antt =====
-- How the counts of `Region` answer to a region's type and to a cut of its range.
use atom_os.Prelude.{ℕ, ◌+◌, ◌≤◌, ◌≡◌, ◌∙◌, true, false, List, [], ◌∷◌, ◌++◌, arith, bit, length}
use atom_os.Pmm.Region.{MemoryRegion, is_usable, within, usable_at, held_at, OrderedFrom}

module _ (a : ℕ) (r : MemoryRegion) (rs : List MemoryRegion) where
  pub count-usable :
      is_usable r.type ≡ true
      → (usable_at a (r ∷ rs) ≡ bit (within a r.base r.size) + usable_at a rs)
        × (held_at a (r ∷ rs) ≡ held_at a rs)
  unfolding usable_at held_at
  count-usable e = (rw e, rw e (omega arith))

  pub count-held :
      is_usable r.type ≡ false
      → (usable_at a (r ∷ rs) ≡ usable_at a rs)
        × (held_at a (r ∷ rs) ≡ bit (within a r.base r.size) + held_at a rs)
  unfolding usable_at held_at
  count-held e = (rw e (omega arith), rw e)

-- A range cut in two at `c`.
pub within-cut :
    (a b n c m k : ℕ)
    → c ≡ b + n
    → k ≡ n + m
    → bit (within a b k) ≡ bit (within a b n) + bit (within a c m)
within-cut a b n c m k p q = ground arith

-- An empty range holds no address.
pub within-zero : (a b n : ℕ) → n ≡ 0 → bit (within a b n) ≡ 0
within-zero a b n e = ground arith

module _ (a : ℕ) where
  pub usable_at-append :
      (xs ys : List MemoryRegion) → usable_at a (xs ++ ys) ≡ usable_at a xs + usable_at a ys
  unfolding usable_at
  usable_at-append [] ys = omega arith
  usable_at-append (x ∷ xs) ys = omega (arith, usable_at-append xs ys)

  pub held_at-append :
      (xs ys : List MemoryRegion) → held_at a (xs ++ ys) ≡ held_at a xs + held_at a ys
  unfolding held_at
  held_at-append [] ys = omega arith
  held_at-append (x ∷ xs) ys = omega (arith, held_at-append xs ys)

-- Two lists of which each address has the same status.
pub record SameStatus (xs ys : List MemoryRegion) : Type 0 where
  pub usable : (a : ℕ) → usable_at a xs ≡ usable_at a ys
  pub held : (a : ℕ) → held_at a xs ≡ held_at a ys

pub SameStatus-trans :
    {xs ys zs : List MemoryRegion} → SameStatus xs ys → SameStatus ys zs → SameStatus xs zs
SameStatus-trans p q = record {
  usable = λ a. p.usable a ∙ q.usable a;
  held = λ a. p.held a ∙ q.held a;
}

-- A change of the tail is a change of the list.
pub SameStatus-append :
    (ws : List MemoryRegion) {xs ys : List MemoryRegion}
    → SameStatus xs ys
    → SameStatus (ws ++ xs) (ws ++ ys)
SameStatus-append ws {xs} {ys} s = record {
  usable = λ a. omega (arith, usable_at-append a ws xs, usable_at-append a ws ys, s.usable a);
  held = λ a. omega (arith, held_at-append a ws xs, held_at-append a ws ys, s.held a);
}

pub Ordered-append :
    (lo : ℕ) (ws : List MemoryRegion) (xs ys : List MemoryRegion)
    → ((l : ℕ) → OrderedFrom l xs → OrderedFrom l ys)
    → OrderedFrom lo (ws ++ xs)
    → OrderedFrom lo (ws ++ ys)
Ordered-append lo [] xs ys f h = f lo h
Ordered-append lo (w ∷ ws) xs ys f h =
    (h.0, h.1, h.2, Ordered-append (w.base + w.size) ws xs ys f h.3)

-- What follows a stretch of an ordered list begins behind it.
pub Ordered-bound :
    (lo : ℕ) (ws : List MemoryRegion) (r : MemoryRegion) (xs : List MemoryRegion)
    → OrderedFrom lo (ws ++ r ∷ xs)
    → lo + length ws ≤ r.base
Ordered-bound lo [] r xs h = omega arith
Ordered-bound lo (w ∷ ws) r xs h = omega (arith, Ordered-bound (w.base + w.size) ws r xs h.3)

pub Ordered-rest :
    (lo : ℕ) (ws : List MemoryRegion) (r : MemoryRegion) (xs : List MemoryRegion)
    → OrderedFrom lo (ws ++ r ∷ xs)
    → OrderedFrom lo (r ∷ xs)
Ordered-rest lo [] r xs h = h
Ordered-rest lo (w ∷ ws) r xs h =
    let t = Ordered-rest (w.base + w.size) ws r xs h.3 in (omega arith, t.1, t.2, t.3)
