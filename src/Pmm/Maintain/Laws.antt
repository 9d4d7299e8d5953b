-- ===== src/Pmm/Maintain/Laws.antt =====
-- `pmm_maintain` keeps an ordered list ordered, and changes the status of no address.
use atom_os.Prelude.{
  ℕ, ◌+◌, ◌≡◌, ◌∙◌, refl, true, false, List, [], ◌∷◌, arith, Bool-cases, inl, inr,
}
use atom_os.Pmm.Region.{MemoryRegion, is_usable, usable_at, held_at, OrderedFrom, IsOrdered}
use atom_os.Pmm.Maintain.{mergeable, span, maintain_from, pmm_maintain}

module _ (r s : MemoryRegion) (rs : List MemoryRegion) where
  maintain_from-merge :
      mergeable r s ≡ true → maintain_from r (s ∷ rs) ≡ maintain_from (span r s) rs
  unfolding maintain_from
  maintain_from-merge e = rw (e, maintain_from)

  maintain_from-skip : mergeable r s ≡ false → maintain_from r (s ∷ rs) ≡ r ∷ maintain_from s rs
  unfolding maintain_from
  maintain_from-skip e = rw (e, maintain_from)

-- Neighbours of an ordered list merge only where the second begins at the end of the first.
record Merged (r s t : MemoryRegion) : Type 0 where
  meets : s.base ≡ r.base + r.size
  base : t.base ≡ r.base
  size : t.size ≡ r.size + s.size
  first : is_usable r.type ≡ true
  second : is_usable s.type ≡ true
  kept : is_usable t.type ≡ true

span-Merged :
    (lo : ℕ) (r s : MemoryRegion) (rs : List MemoryRegion)
    → OrderedFrom lo (r ∷ s ∷ rs)
    → mergeable r s ≡ true
    → Merged r s (span r s)
unfolding mergeable span
span-Merged lo r s rs h e = ground arith

module _ (lo : ℕ) (r s : MemoryRegion) (rs : List MemoryRegion) where
  span-Ordered : OrderedFrom lo (r ∷ s ∷ rs) → mergeable r s ≡ true → OrderedFrom lo (span r s ∷ rs)
  span-Ordered h e =
      let m = span-Merged lo r s rs h e in
      let end : (span r s).base + (span r s).size ≡ s.base + s.size =
        omega (arith, m.meets, m.base, m.size) in
      (omega (arith, m.base), omega (arith, m.size), omega (arith, end), rw end h.3.3)

  usable_at-span :
      (a : ℕ)
      → OrderedFrom lo (r ∷ s ∷ rs)
      → mergeable r s ≡ true
      → usable_at a (span r s ∷ rs) ≡ usable_at a (r ∷ s ∷ rs)
  unfolding usable_at
  usable_at-span a h e = let m = span-Merged lo r s rs h e in ground arith

  held_at-span :
      (a : ℕ)
      → OrderedFrom lo (r ∷ s ∷ rs)
      → mergeable r s ≡ true
      → held_at a (span r s ∷ rs) ≡ held_at a (r ∷ s ∷ rs)
  unfolding held_at
  held_at-span a h e = let m = span-Merged lo r s rs h e in ground arith

-- What `pmm_maintain` owes a list `rs`, when it makes `out` of it.
record Kept (lo : ℕ) (rs out : List MemoryRegion) : Type 0 where
  ordered : OrderedFrom lo out
  usable : (a : ℕ) → usable_at a out ≡ usable_at a rs
  held : (a : ℕ) → held_at a out ≡ held_at a rs

maintain_from-Kept :
    (lo : ℕ) (r : MemoryRegion) (rs : List MemoryRegion)
    → OrderedFrom lo (r ∷ rs)
    → Kept lo (r ∷ rs) (maintain_from r rs)
unfolding usable_at held_at
maintain_from-Kept lo r [] h =
    unfold maintain_from in record { ordered = h; usable = λ a. refl; held = λ a. refl }
maintain_from-Kept lo r (s ∷ rs) h = elim (Bool-cases (mergeable r s)) [
  | inl e ↦
      let k = maintain_from-Kept lo (span r s) rs (span-Ordered lo r s rs h e) in
      rw (maintain_from-merge r s rs e) (record {
        ordered = k.ordered;
        usable = λ a. k.usable a ∙ usable_at-span lo r s rs a h e;
        held = λ a. k.held a ∙ held_at-span lo r s rs a h e;
      })
  | inr e ↦
      let k = maintain_from-Kept (r.base + r.size) s rs h.3 in
      rw (maintain_from-skip r s rs e) (record {
        ordered = (h.0, h.1, h.2, k.ordered);
        usable = λ a. omega (arith, k.usable a);
        held = λ a. omega (arith, k.held a);
      })
]

-- `pmm_maintain` keeps an ordered region list ordered. It changes the status of no address: each
-- is held by as many usable regions as before, and by as many regions of the other types.
pub pmm_maintain_lem :
    (rs : List MemoryRegion)
    → IsOrdered rs
    → IsOrdered (pmm_maintain rs)
      × ((a : ℕ)
          → (usable_at a (pmm_maintain rs) ≡ usable_at a rs)
            × (held_at a (pmm_maintain rs) ≡ held_at a rs))
unfolding pmm_maintain
pmm_maintain_lem [] h = (tt, λ a. (refl, refl))
pmm_maintain_lem (r ∷ rs) h =
    let k = maintain_from-Kept 0 r rs h in (k.ordered, λ a. (k.usable a, k.held a))
