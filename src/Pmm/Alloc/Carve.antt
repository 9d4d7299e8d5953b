-- ===== src/Pmm/Alloc/Carve.antt =====
-- What `pmm_alloc` does to the region that it chooses, when each `malloc` succeeds.
use atom_os.Prelude.{
  ℕ, ◌+◌, ◌%◌, ◌≤◌, ◌<◌, ◌≡◌, ◌∙◌, ap, refl, true, false, some, List, [], ◌∷◌, ◌++◌, arith, bit,
  word, sub64, ◌==◌,
}
use native.Mathlib.Decide.{dec_lt}
use atom_os.Pmm.Region.{
  MemoryRegion, RegionType, is_usable, within, usable_at, held_at, OrderedFrom,
}
use atom_os.Pmm.Counting.{count-usable, count-held, within-cut, within-zero}
use atom_os.Pmm.Alloc.{
  Mallocs, insert_suffix, aligned_base, fits, suffix, has_suffix, carve_front, carve_middle, carve,
}
use atom_os.Pmm.Alloc.Taken.{insert_at-zero, insert_at-one, Taken, Holds, IsBlockSize}

module _ (n : ℕ) (cur : MemoryRegion) where
  -- A region that passes the tests holds an aligned block of `n` bytes.
  pub record Room : Type 0 where
    pub is_free : is_usable cur.type ≡ true
    pub from : cur.base ≤ aligned_base n cur
    pub aligned : aligned_base n cur % 4096 ≡ 0
    pub until : aligned_base n cur + n ≤ cur.base + cur.size

  pub fits-Room : IsBlockSize n → cur.base + cur.size < word → fits n cur ≡ true → Room
  unfolding fits aligned_base
  fits-Room b w e = ground arith

  abbrev pub block : MemoryRegion
  block = record { base = aligned_base n cur; size = n; type = RegionType.reserved }

  abbrev pub gap : MemoryRegion
  gap = record cur { size = sub64 (aligned_base n cur) cur.base }

  module _ (rest : List MemoryRegion) (m : Mallocs) (b : IsBlockSize n)
      (w : cur.base + cur.size < word) (room : Room) where
    abbrev pub full : Mallocs
    full = true ∷ true ∷ m

    has_suffix-true : aligned_base n cur + n < cur.base + cur.size → has_suffix n cur ≡ true
    unfolding has_suffix
    has_suffix-true h = ground (arith, room, w)

    has_suffix-false : aligned_base n cur + n ≡ cur.base + cur.size → has_suffix n cur ≡ false
    unfolding has_suffix
    has_suffix-false h = ground (arith, room, w)

    abbrev pub Carves : List MemoryRegion → Type 0
    Carves out =
        (m' : Mallocs) × (carve n cur rest (true ∷ true ∷ full)
          ≡ (some (aligned_base n cur), out, m'))

    carve-middle :
        cur.base < aligned_base n cur
        → aligned_base n cur + n < cur.base + cur.size
        → Carves (gap ∷ block ∷ suffix n cur ∷ rest)
    unfolding carve carve_middle insert_suffix
    carve-middle h k =
        let off : (sub64 (aligned_base n cur) cur.base == 0) ≡ false = ground (arith, room, w) in
        (m, simp (off, has_suffix-true k, insert_at-zero, insert_at-one))

    carve-back :
        cur.base < aligned_base n cur
        → aligned_base n cur + n ≡ cur.base + cur.size
        → Carves (gap ∷ block ∷ rest)
    unfolding carve carve_middle
    carve-back h k =
        let off : (sub64 (aligned_base n cur) cur.base == 0) ≡ false = ground (arith, room, w) in
        (full, simp (off, has_suffix-false k, insert_at-zero))

    carve-front :
        aligned_base n cur ≡ cur.base → n < cur.size → Carves (block ∷ suffix n cur ∷ rest)
    unfolding carve carve_front insert_suffix
    carve-front h k =
        let on : (sub64 (aligned_base n cur) cur.base == 0) ≡ true = ground (arith, room, w) in
        let off : (cur.size == n) ≡ false = ground arith in
        let more = has_suffix-true (omega arith) in
        (full, simp (on, off, more, insert_at-zero) (simp h))

    carve-whole : aligned_base n cur ≡ cur.base → cur.size ≡ n → Carves (block ∷ rest)
    unfolding carve
    carve-whole h k =
        let on : (sub64 (aligned_base n cur) cur.base == 0) ≡ true = ground (arith, room, w) in
        let same : (cur.size == n) ≡ true = ground arith in
        (true ∷ true ∷ full, simp (on, same) (simp (h, k)))

    -- What carving owes the list.
    pub record Carved (lo : ℕ) (out : List MemoryRegion) : Type 0 where
      pub carves : Carves out
      pub ordered : OrderedFrom lo out
      pub taken : Taken (aligned_base n cur) n (cur ∷ rest) out
      pub holds : Holds (aligned_base n cur) n out

    module _ (lo : ℕ) (h : OrderedFrom lo (cur ∷ rest)) where
      suffix_usable : is_usable (suffix n cur).type ≡ true
      unfolding suffix
      suffix_usable = refl

      suffix_fields :
          (k : aligned_base n cur + n < cur.base + cur.size)
          → ((suffix n cur).base ≡ aligned_base n cur + n)
            × ((suffix n cur).base + (suffix n cur).size ≡ cur.base + cur.size)
      unfolding suffix
      suffix_fields k = ground (arith, room)

      ordered_tail :
          (k : aligned_base n cur + n < cur.base + cur.size)
          → OrderedFrom (aligned_base n cur + n) (suffix n cur ∷ rest)
      ordered_tail k =
          let f = suffix_fields k in
          (omega (arith, f.0), omega (arith, f), omega (arith, f.1), rw f.1 h.3)

      ordered_block :
          (p : ℕ) (tail : List MemoryRegion)
          → p ≤ aligned_base n cur
          → OrderedFrom (aligned_base n cur + n) tail
          → OrderedFrom p (block ∷ tail)
      ordered_block p tail k t = (k, b.positive, omega (arith, room.until), t)

      ordered_gap :
          (tail : List MemoryRegion)
          → cur.base < aligned_base n cur
          → OrderedFrom (aligned_base n cur) tail
          → OrderedFrom lo (gap ∷ tail)
      ordered_gap tail g t =
          let e : cur.base + sub64 (aligned_base n cur) cur.base ≡ aligned_base n cur =
            omega (arith, room.until) in
          (h.0, omega (arith, room.until), omega (arith, room.until), rw e t)

      Holds-block :
          (before after : List MemoryRegion)
          → Holds (aligned_base n cur) n (before ++ block ∷ after)
      Holds-block before after = record {
        before = before;
        region = block;
        after = after;
        splits = refl;
        base = refl;
        size = refl;
        held = refl;
      }

      -- The range of the region is the gap, the block and the suffix.
      cuts :
          (a g t : ℕ)
          → cur.base + g ≡ aligned_base n cur
          → aligned_base n cur + n + t ≡ cur.base + cur.size
          → bit (within a cur.base cur.size)
            ≡ bit (within a cur.base g)
              + bit (within a (aligned_base n cur) n)
              + bit (within a (aligned_base n cur + n) t)
      cuts a g t p q = omega (
        arith,
        within-cut a cur.base g (aligned_base n cur) (n + t) cur.size (omega arith) (omega arith),
        within-cut a (aligned_base n cur) n (aligned_base n cur + n) t (n + t) refl refl,
      )

      count_cur :
          (a : ℕ)
          → (usable_at a (cur ∷ rest) ≡ bit (within a cur.base cur.size) + usable_at a rest)
            × (held_at a (cur ∷ rest) ≡ held_at a rest)
      count_cur a = count-usable a cur rest room.is_free

      taken_tail :
          (k : aligned_base n cur + n < cur.base + cur.size)
          → (a : ℕ)
          → (usable_at a (block ∷ suffix n cur ∷ rest)
              ≡ bit (within a (aligned_base n cur + n) (suffix n cur).size) + usable_at a rest)
            × (held_at a (block ∷ suffix n cur ∷ rest)
                ≡ bit (within a (aligned_base n cur) n) + held_at a rest)
      taken_tail k a =
          let f = suffix_fields k in
          let b = count-held a block (suffix n cur ∷ rest) refl in
          let s = count-usable a (suffix n cur) rest suffix_usable in
          (
            b.0 ∙ s.0 ∙ ap (λ x. bit (within a x (suffix n cur).size) + usable_at a rest) f.0,
            omega (arith, b.1, s.1),
          )

      carved_middle :
          cur.base < aligned_base n cur
          → aligned_base n cur + n < cur.base + cur.size
          → Carved lo (gap ∷ block ∷ suffix n cur ∷ rest)
      carved_middle g k =
          let f = suffix_fields k in
          let g' = λ (a : ℕ). count-usable a gap (block ∷ suffix n cur ∷ rest) room.is_free in
          let c = λ (a : ℕ).
            cuts a gap.size (suffix n cur).size (omega (arith, room.until)) (omega (arith, f)) in
          record {
            carves = carve-middle g k;
            ordered = ordered_gap (block ∷ suffix n cur ∷ rest) g (
                ordered_block (aligned_base n cur) (suffix n cur ∷ rest) (omega arith)
                  (ordered_tail k));
            holds = Holds-block (gap ∷ []) (suffix n cur ∷ rest);
            taken = record {
              usable = λ a. omega (arith, count_cur a, g' a, taken_tail k a, c a);
              held = λ a. omega (arith, count_cur a, g' a, taken_tail k a);
            };
          }

      carved_back :
          cur.base < aligned_base n cur
          → aligned_base n cur + n ≡ cur.base + cur.size
          → Carved lo (gap ∷ block ∷ rest)
      carved_back g k =
          let g' = λ (a : ℕ). count-usable a gap (block ∷ rest) room.is_free in
          let b' = λ (a : ℕ). count-held a block rest refl in
          let c = λ (a : ℕ). cuts a gap.size 0 (omega (arith, room.until)) (omega arith) in
          let z = λ (a : ℕ). within-zero a (aligned_base n cur + n) 0 refl in
          record {
            carves = carve-back g k;
            ordered =
                ordered_gap (block ∷ rest) g
                  (ordered_block (aligned_base n cur) rest (omega arith) (rw k h.3));
            holds = Holds-block (gap ∷ []) rest;
            taken = record {
              usable = λ a. omega (arith, count_cur a, g' a, b' a, c a, z a);
              held = λ a. omega (arith, count_cur a, g' a, b' a);
            };
          }

      carved_front :
          aligned_base n cur ≡ cur.base → n < cur.size → Carved lo (block ∷ suffix n cur ∷ rest)
      carved_front e k =
          let k' : aligned_base n cur + n < cur.base + cur.size = omega arith in
          let f = suffix_fields k' in
          let c = λ (a : ℕ). cuts a 0 (suffix n cur).size (omega arith) (omega (arith, f)) in
          let z = λ (a : ℕ). within-zero a cur.base 0 refl in
          record {
            carves = carve-front e k;
            ordered = ordered_block lo (suffix n cur ∷ rest) (omega arith) (ordered_tail k');
            holds = Holds-block [] (suffix n cur ∷ rest);
            taken = record {
              usable = λ a. omega (arith, count_cur a, taken_tail k' a, c a, z a);
              held = λ a. omega (arith, count_cur a, taken_tail k' a);
            };
          }

      carved_whole : aligned_base n cur ≡ cur.base → cur.size ≡ n → Carved lo (block ∷ rest)
      carved_whole e k =
          let b' = λ (a : ℕ). count-held a block rest refl in
          let c = λ (a : ℕ). cuts a 0 0 (omega arith) (omega arith) in
          let z = λ (a : ℕ). within-zero a cur.base 0 refl in
          let z' = λ (a : ℕ). within-zero a (aligned_base n cur + n) 0 refl in
          let end : aligned_base n cur + n ≡ cur.base + cur.size = omega arith in
          record {
            carves = carve-whole e k;
            ordered = ordered_block lo rest (omega arith) (rw end h.3);
            holds = Holds-block [] rest;
            taken = record {
              usable = λ a. omega (arith, count_cur a, b' a, c a, z a, z' a);
              held = λ a. omega (arith, count_cur a, b' a);
            };
          }

      pub carved : (out : List MemoryRegion) × Carved lo out
      carved = elim (dec_lt cur.base (aligned_base n cur)) [
        | yes g ↦ elim (dec_lt (aligned_base n cur + n) (cur.base + cur.size)) [
          | yes k ↦ (gap ∷ block ∷ suffix n cur ∷ rest, carved_middle g k)
          | no k ↦ (gap ∷ block ∷ rest, carved_back g (omega (arith, room.until)))
        ]
        | no g ↦ elim (dec_lt n cur.size) [
          | yes k ↦ (block ∷ suffix n cur ∷ rest, carved_front (omega (arith, room.from)) k)
          | no k ↦ (
            block ∷ rest,
            carved_whole (omega (arith, room.from)) (omega (arith, room.from, room.until)),
          )
        ]
      ]
