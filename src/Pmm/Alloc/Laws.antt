-- ===== src/Pmm/Alloc/Laws.antt =====
-- What `pmm_alloc` answers, and what it leaves, when each `malloc` for its own structs succeeds.
use atom_os.Prelude.{
  ℕ, ◌+◌, ◌*◌, ◌/◌, ◌%◌, ◌≤◌, ◌<◌, ◌≡◌, ◌⊎◌, ◌∙◌, ap, refl, true, false, Option, none, some, List,
  [], ◌∷◌, arith, Bool-cases, inl, inr, bit, word, All,
}
use atom_os.Pmm.Region.{MemoryRegion, is_usable, within, usable_at, held_at, OrderedFrom, IsOrdered}
use atom_os.Pmm.Maintain.{pmm_maintain}
use atom_os.Pmm.Maintain.Laws.{pmm_maintain_lem}
use atom_os.Pmm.Alloc.{
  Mallocs, Reply, aligned_base, fits, carve, alloc_from, alloc_size_of, pmm_alloc,
}
use atom_os.Pmm.Alloc.Taken.{Taken, Holds, IsBlockSize}
use atom_os.Pmm.Alloc.Carve.{fits-Room, carved}

abbrev pub enough : Mallocs → Mallocs
enough m = true ∷ true ∷ true ∷ true ∷ m

alloc_from-here :
    (n : ℕ) (cur : MemoryRegion) (rest : List MemoryRegion) (m : Mallocs)
    → fits n cur ≡ true
    → alloc_from n (cur ∷ rest) m ≡ carve n cur rest m
unfolding alloc_from
alloc_from-here n cur rest m e = rw (e, alloc_from)

alloc_from-there :
    (n : ℕ) (cur : MemoryRegion) (rest : List MemoryRegion) (m : Mallocs) {ret : Option ℕ}
    {out : List MemoryRegion} {m' : Mallocs}
    → fits n cur ≡ false
    → alloc_from n rest m ≡ (ret, out, m')
    → alloc_from n (cur ∷ rest) m ≡ (ret, cur ∷ out, m')
unfolding alloc_from
alloc_from-there n cur rest m e ih = rw (e, alloc_from) (rw ih)

-- A block of `n` bytes was found.
record Served (lo n : ℕ) (rs : List MemoryRegion) (m : Mallocs) : Type 0 where
  ret : ℕ
  out : List MemoryRegion
  later : Mallocs
  runs : alloc_from n rs (enough m) ≡ (some ret, out, later)
  aligned : ret % 4096 ≡ 0
  ordered : OrderedFrom lo out
  taken : Taken ret n rs out
  holds : Holds ret n out

Holds-cons :
    (p n : ℕ) (r : MemoryRegion) (out : List MemoryRegion) → Holds p n out → Holds p n (r ∷ out)
Holds-cons p n r out h = record {
  before = r ∷ h.before;
  region = h.region;
  after = h.after;
  splits = ap (λ l. r ∷ l) h.splits;
  base = h.base;
  size = h.size;
  held = h.held;
}

-- No region has room.
record Refused (n : ℕ) (rs : List MemoryRegion) (m : Mallocs) : Type 0 where
  runs : alloc_from n rs m ≡ (none, rs, m)
  full : All (λ r. fits n r ≡ false) rs

module _ (n : ℕ) (b : IsBlockSize n) (m : Mallocs) where
  Served-cons :
      (lo : ℕ) (cur : MemoryRegion) (rest : List MemoryRegion)
      → OrderedFrom lo (cur ∷ rest)
      → fits n cur ≡ false
      → Served (cur.base + cur.size) n rest m
      → Served lo n (cur ∷ rest) m
  Served-cons lo cur rest h e s = record {
    ret = s.ret;
    out = cur ∷ s.out;
    later = s.later;
    runs = alloc_from-there n cur rest (enough m) e s.runs;
    aligned = s.aligned;
    ordered = (h.0, h.1, h.2, s.ordered);
    holds = Holds-cons s.ret n cur s.out s.holds;
    taken =
        unfold usable_at held_at in
        record {
          usable = λ a. omega (arith, s.taken.usable a);
          held = λ a. omega (arith, s.taken.held a);
        };
  }

  alloc_from_lem :
      (lo : ℕ) (rs : List MemoryRegion)
      → OrderedFrom lo rs
      → Served lo n rs m ⊎ Refused n rs (enough m)
  alloc_from_lem lo [] h = inr (unfold alloc_from in record { runs = refl; full = tt })
  alloc_from_lem lo (cur ∷ rest) h = elim (Bool-cases (fits n cur)) [
    | inl e ↦
        let room = fits-Room n cur b h.2 e in
        let (out, c) = carved n cur rest m b h.2 room lo h in
        let (later, runs) = c.carves in
        inl (record {
          ret = aligned_base n cur;
          out = out;
          later = later;
          runs = alloc_from-here n cur rest (enough m) e ∙ runs;
          aligned = room.aligned;
          ordered = c.ordered;
          taken = c.taken;
          holds = c.holds;
        })
    | inr e ↦ elim (alloc_from_lem (cur.base + cur.size) rest h.3) [
      | inl s ↦ inl (Served-cons lo cur rest h e s)
      | inr r ↦
          inr
            (record { runs = alloc_from-there n cur rest (enough m) e r.runs; full = (e, r.full) })
    ]
  ]

-- The number of bytes in the whole pages that `kb` kilobytes need.
abbrev pub pages_for : ℕ → ℕ
pages_for kb = (kb * 1024 + 4095) / 4096 * 4096

-- A request that the guards before the loop let through: not zero, and no overflow.
abbrev pub IsRequest : ℕ → Type 0
IsRequest kb = (0 < kb) × (kb * 1024 + 4095 < word)

alloc_size_of-request :
    (kb : ℕ) → IsRequest kb → (alloc_size_of kb ≡ some (pages_for kb)) × IsBlockSize (pages_for kb)
unfolding alloc_size_of
alloc_size_of-request kb h = (ground arith, omega arith)

-- Any other request is answered by NULL, and leaves the list alone.
pub pmm_alloc-invalid :
    (rs : List MemoryRegion) (kb : ℕ) (m : Mallocs)
    → (kb ≡ 0) ⊎ (word ≤ kb * 1024 + 4095)
    → pmm_alloc rs kb m ≡ (none, rs, m)
unfolding pmm_alloc
pmm_alloc-invalid rs kb m h =
    let none_of : alloc_size_of kb ≡ none = unfold alloc_size_of in ground arith in
    rw (none_of, pmm_alloc)

-- A region without room: usable or not, it holds no `n` bytes from a page boundary on.
abbrev pub HasNoRoom : ℕ → MemoryRegion → Type 0
HasNoRoom n r =
    is_usable r.type ≡ true → (p : ℕ) → p % 4096 ≡ 0 → r.base ≤ p → r.base + r.size < p + n

fits-false :
    (n : ℕ) (r : MemoryRegion)
    → IsBlockSize n
    → r.base + r.size < word
    → fits n r ≡ false
    → HasNoRoom n r
unfolding fits aligned_base
fits-false n r b w e u p a l = ground arith

no_room :
    (n lo : ℕ) (rs : List MemoryRegion)
    → IsBlockSize n
    → OrderedFrom lo rs
    → All (λ r. fits n r ≡ false) rs
    → All (HasNoRoom n) rs
no_room n lo [] b h f = tt
no_room n lo (r ∷ rs) b h f = (fits-false n r b h.2 f.0, no_room n (r.base + r.size) rs b h.3 f.1)

-- What `pmm_alloc` owes a caller: a block that was usable before and that nobody has now, or the
-- list as it was, of which no region has room.
pub data Answer (rs : List MemoryRegion) (kb : ℕ) (m : Mallocs) : Reply → Type 0 where
  block :
      {p : ℕ} {out : List MemoryRegion} {m' : Mallocs}
      → p % 4096 ≡ 0
      → IsOrdered out
      → Taken p (pages_for kb) rs out
      → Holds p (pages_for kb) out
      → Answer rs kb m (some p, out, m')
  exhausted :
      All (HasNoRoom (pages_for kb)) (pmm_maintain rs) → Answer rs kb m (none, pmm_maintain rs, m)

Taken-pmm_maintain :
    (p n : ℕ) (rs out : List MemoryRegion)
    → IsOrdered rs
    → Taken p n (pmm_maintain rs) out
    → Taken p n rs out
Taken-pmm_maintain p n rs out h t =
    let same = (pmm_maintain_lem rs h).1 in
    record {
      usable = λ a. t.usable a ∙ (same a).0;
      held = λ a. t.held a ∙ ap (λ (x : ℕ). x + bit (within a p n)) (same a).1;
    }

pmm_alloc-request :
    (rs : List MemoryRegion) (kb : ℕ) (m : Mallocs)
    → IsRequest kb
    → pmm_alloc rs kb m ≡ alloc_from (pages_for kb) (pmm_maintain rs) m
unfolding pmm_alloc
pmm_alloc-request rs kb m q = rw ((alloc_size_of-request kb q).0, pmm_alloc)

-- `pmm_alloc` is total and correct when the four calls of `malloc` that it may make succeed: on an
-- ordered list and a request within the guards it either answers a page-aligned block of the
-- requested size in whole pages, every address of which was usable and is now held by one more
-- region that is not, the block itself, with every other address as before and the list still ordered; or it answers
-- NULL, and then no usable region of the merged list has room at a page boundary.
pub pmm_alloc_lem :
    (rs : List MemoryRegion) (kb : ℕ) (m : Mallocs)
    → IsOrdered rs
    → IsRequest kb
    → Answer rs kb (enough m) (pmm_alloc rs kb (enough m))
pmm_alloc_lem rs kb m h q =
    let b = (alloc_size_of-request kb q).1 in
    let ordered = (pmm_maintain_lem rs h).0 in
    rw (pmm_alloc-request rs kb (enough m) q)
      (elim (alloc_from_lem (pages_for kb) b m 0 (pmm_maintain rs) ordered) [
        | inl s ↦ rw s.runs (
            block s.aligned s.ordered (Taken-pmm_maintain s.ret (pages_for kb) rs s.out h s.taken)
              s.holds)
        | inr r ↦
            rw r.runs (exhausted (no_room (pages_for kb) 0 (pmm_maintain rs) b ordered r.full))
      ])
