-- ===== src/Pmm/Free/Laws.antt =====
-- `pmm_free`: the loop ends, a freed region is usable afterwards, and an allocation is undone.
use atom_os.Prelude.{
  ℕ, zero, suc, ◌+◌, ◌*◌, ◌/◌, ◌%◌, ◌<◌, ◌≡◌, ◌≢◌, ◌∙◌, ap, refl, true, false, none, some, List, [],
  ◌∷◌, ◌++◌, ◌==◌, arith, Option-cases, Bool-cases, inl, inr, bit, length,
}
use mathlib.Core.List.{append_assoc, append-nil}
use atom_os.Pmm.Region.{
  MemoryRegion, RegionType, is_usable, within, usable_at, held_at, OrderedFrom, IsOrdered,
}
use atom_os.Pmm.Counting.{
  count-usable, count-held, SameStatus, SameStatus-trans, SameStatus-append, Ordered-append,
  Ordered-rest, usable_at-append, held_at-append,
}
use atom_os.Pmm.Free.{absorb, merge_loop, find_base, release, pmm_free}
use atom_os.Pmm.Free.Absorb.{absorb_below, absorb_above}

length-absorb :
    (freed g : MemoryRegion) (xs ys : List MemoryRegion)
    → absorb freed xs ≡ some (g, ys)
    → length xs ≡ suc (length ys)
unfolding absorb
length-absorb freed g [] ys e = cc
length-absorb freed g (mr ∷ rest) ys e = elim (Option-cases (absorb freed rest)) [
  | inl e' ↦ ground arith
  | inr ((g', left), e') ↦ ground (arith, length-absorb freed g' rest left e')
]

module _ (fuel : ℕ) (before : List MemoryRegion) (freed : MemoryRegion)
    (after : List MemoryRegion) where
  merge_loop-below :
      {g : MemoryRegion} {left : List MemoryRegion}
      → absorb freed before ≡ some (g, left)
      → merge_loop (suc fuel) before freed after ≡ merge_loop fuel left g after
  unfolding merge_loop
  merge_loop-below e = rw (e, merge_loop)

  merge_loop-above :
      {g : MemoryRegion} {left : List MemoryRegion}
      → absorb freed before ≡ none
      → absorb freed after ≡ some (g, left)
      → merge_loop (suc fuel) before freed after ≡ merge_loop fuel before g left
  unfolding merge_loop
  merge_loop-above e e' = rw (e, merge_loop) (rw (e', merge_loop))

  merge_loop-done :
      absorb freed before ≡ none
      → absorb freed after ≡ none
      → merge_loop (suc fuel) before freed after ≡ some (before ++ freed ∷ after)
  unfolding merge_loop
  merge_loop-done e e' = rw (e, merge_loop) (rw (e', merge_loop))

-- A list, ordered or not, is left after as many rounds as there are other regions, and one.
merge_loop_total :
    (fuel : ℕ) (before : List MemoryRegion) (freed : MemoryRegion) (after : List MemoryRegion)
    → length before + length after < fuel
    → (out : List MemoryRegion) × (merge_loop fuel before freed after ≡ some out)
merge_loop_total zero before freed after h = absurd (omega arith)
merge_loop_total (suc fuel) before freed after h = elim (Option-cases (absorb freed before)) [
  | inr ((g, left), e) ↦
      let shorter = length-absorb freed g before left e in
      let (out, r) = merge_loop_total fuel left g after (omega (arith, shorter)) in
      (out, merge_loop-below fuel before freed after e ∙ r)
  | inl e ↦ elim (Option-cases (absorb freed after)) [
    | inr ((g, left), e') ↦
        let shorter = length-absorb freed g after left e' in
        let (out, r) = merge_loop_total fuel before g left (omega (arith, shorter)) in
        (out, merge_loop-above fuel before freed after e e' ∙ r)
    | inl e' ↦ (before ++ freed ∷ after, merge_loop-done fuel before freed after e e')
  ]
]

-- `pmm_free` ends on every list, ordered or not, and for every pointer.
pub pmm_free_total :
    (rs : List MemoryRegion) (ptr : ℕ) → (out : List MemoryRegion) × (pmm_free rs ptr ≡ some out)
unfolding pmm_free release
pmm_free_total rs ptr = elim (Bool-cases (ptr == 0)) [
  | inl z ↦ (rs, rw z)
  | inr nz ↦ elim (Option-cases (find_base (ptr / 4096 * 4096) [] rs)) [
    | inl e ↦ (rs, rw nz (rw (e, pmm_free)))
    | inr ((before, r, after), e) ↦ elim (Bool-cases (is_usable r.type)) [
      | inl u ↦ (rs, rw nz (rw e (rw u)))
      | inr u ↦
          let (out, l) =
            merge_loop_total (suc (length before + length after)) before
              (record r { type = RegionType.usable }) after (omega arith) in
          (out, rw nz (rw e (rw u l)))
    ]
  ]
]

-- The loop on an ordered list: it comes to an end, keeps the order, and keeps the status of every
-- address.
merge_loop_lem :
    (fuel : ℕ) (before : List MemoryRegion) (freed : MemoryRegion) (after : List MemoryRegion)
    → length before + length after < fuel
    → is_usable freed.type ≡ true
    → IsOrdered (before ++ freed ∷ after)
    → (out : List MemoryRegion) × (merge_loop fuel before freed after ≡ some out)
      × IsOrdered out
      × SameStatus out (before ++ freed ∷ after)
merge_loop_lem zero before freed after h u o = absurd (omega arith)
merge_loop_lem (suc fuel) before freed after h u o = elim (absorb_below freed after u 0 before o) [
  | inr l ↦
      let shorter = length-absorb freed l.grown before l.left l.runs in
      let (out, r, ord, st) =
        merge_loop_lem fuel l.left l.grown after (omega (arith, shorter)) l.usable
          l.merge.ordered in
      (
        out,
        merge_loop-below fuel before freed after l.runs ∙ r,
        ord,
        SameStatus-trans st l.merge.status,
      )
  | inl e ↦
      elim (absorb_above freed u (Ordered-rest 0 before freed after o).2 after
        (Ordered-rest 0 before freed after o).3) [
          | inr k ↦
              let (out, r, ord, st) =
                merge_loop_lem fuel before k.grown k.left (omega (arith, k.shorter)) k.usable
                  (Ordered-append 0 before (freed ∷ after) (k.grown ∷ k.left) k.ordered o) in
              (
                out,
                merge_loop-above fuel before freed after e k.runs ∙ r,
                ord,
                SameStatus-trans st (SameStatus-append before k.status),
              )
          | inl e' ↦ (
            before ++ freed ∷ after,
            merge_loop-done fuel before freed after e e',
            o,
            record { usable = λ a. refl; held = λ a. refl },
          )
        ]
]

-- On an ordered list the search finds the region that begins at the address.
find_base_lem :
    (lo : ℕ) (seen before : List MemoryRegion) (r : MemoryRegion) (after : List MemoryRegion)
    → OrderedFrom lo (before ++ r ∷ after)
    → find_base r.base seen (before ++ r ∷ after) ≡ some (seen ++ before, r, after)
unfolding find_base
find_base_lem lo seen [] r after h = ground (arith, append-nil seen)
find_base_lem lo seen (s ∷ ss) r after h =
    let bound = Ordered-rest (s.base + s.size) ss r after h.3 in
    let other : (s.base == r.base) ≡ false = ground (arith, bound.0, h.1) in
    let ih = find_base_lem (s.base + s.size) (seen ++ s ∷ []) ss r after h.3 in
    rw (other, find_base) (ih ∙ ap (λ l. some (l, r, after)) (append_assoc seen (s ∷ []) ss))

-- The region `r` as `pmm_free` marks it.
abbrev marked : MemoryRegion → MemoryRegion
marked r = record r { type = RegionType.usable }

marked-status :
    (before : List MemoryRegion) (r : MemoryRegion) (after : List MemoryRegion) (a : ℕ)
    → is_usable r.type ≡ false
    → (usable_at a (before ++ marked r ∷ after)
        ≡ usable_at a (before ++ r ∷ after) + bit (within a r.base r.size))
      × (held_at a (before ++ marked r ∷ after) + bit (within a r.base r.size)
          ≡ held_at a (before ++ r ∷ after))
marked-status before r after a u =
    let x = count-usable a (marked r) after refl in
    let y = count-held a r after u in
    (
      omega (
        arith,
        x,
        y,
        usable_at-append a before (marked r ∷ after),
        usable_at-append a before (r ∷ after),
      ),
      omega (
        arith,
        x,
        y,
        held_at-append a before (marked r ∷ after),
        held_at-append a before (r ∷ after),
      ),
    )

-- `pmm_free` of the base of a region that is not usable, on an ordered list, ends with an ordered
-- list in which each address of the region is usable once more, is held once less, and every other
-- address has the status that it had.
pub pmm_free_lem :
    (before : List MemoryRegion) (r : MemoryRegion) (after : List MemoryRegion)
    → IsOrdered (before ++ r ∷ after)
    → is_usable r.type ≡ false
    → r.base ≢ 0
    → r.base % 4096 ≡ 0
    → (out : List MemoryRegion) × (pmm_free (before ++ r ∷ after) r.base ≡ some out)
      × IsOrdered out
      × ((a : ℕ)
          → (usable_at a out ≡ usable_at a (before ++ r ∷ after) + bit (within a r.base r.size))
            × (held_at a out + bit (within a r.base r.size) ≡ held_at a (before ++ r ∷ after)))
unfolding pmm_free release
pmm_free_lem before r after h u nz al =
    let found = find_base_lem 0 [] before r after h in
    let (out, l, ord, st) =
      merge_loop_lem (suc (length before + length after)) before (marked r) after (omega arith) refl
        (Ordered-append 0 before (r ∷ after) (marked r ∷ after) (λ lo o. o) h) in
    let off : (r.base == 0) ≡ false = ground arith in
    let page : r.base / 4096 * 4096 ≡ r.base = omega arith in
    (
      out,
      rw off (rw page (rw (found, u) l)),
      ord,
      λ a.
          let m = marked-status before r after a u in
          (st.usable a ∙ m.0, omega (arith, st.held a, m.1)),
    )
