-- ===== src/Pmm/Free/Absorb.antt =====
-- One merge of `pmm_free`: on an ordered list only the neighbours of the freed region are taken in.
use atom_os.Prelude.{
  ℕ, suc, ◌+◌, ◌≤◌, ◌<◌, ◌≡◌, ◌⊎◌, ap, refl, true, Option, none, some, List, [], ◌∷◌, ◌++◌, arith,
  Option-cases, inl, inr, bit, word, length,
}
use atom_os.Pmm.Region.{MemoryRegion, is_usable, within, OrderedFrom}
use atom_os.Pmm.Counting.{count-usable, within-cut, SameStatus, SameStatus-append, Ordered-bound}
use atom_os.Pmm.Maintain.{span}
use atom_os.Pmm.Free.{join, absorb}

-- `g` is the freed region grown by a neighbour, the lower of the two first.
record Grown (low high g : MemoryRegion) : Type 0 where
  meets : high.base ≡ low.base + low.size
  base : g.base ≡ low.base
  size : g.size ≡ low.size + high.size
  usable : is_usable g.type ≡ true

module _ (freed mr : MemoryRegion) (u : is_usable freed.type ≡ true)
    (w : freed.base + freed.size < word) (w' : mr.base + mr.size < word) where
  -- A region that lies before `freed` is taken in if it is usable and ends where `freed` begins.
  join-below :
      (g : MemoryRegion)
      → mr.base + mr.size ≤ freed.base
      → join freed mr ≡ some g
      → Grown mr freed g × (is_usable mr.type ≡ true)
  unfolding join span
  join-below g h e = ground arith

  join-above :
      (g : MemoryRegion)
      → freed.base + freed.size ≤ mr.base
      → join freed mr ≡ some g
      → Grown freed mr g × (is_usable mr.type ≡ true)
  unfolding join span
  join-above g h e = ground arith

-- The two neighbours hold what the grown region holds.
Grown-SameStatus :
    (low high g : MemoryRegion) (rest : List MemoryRegion)
    → is_usable low.type ≡ true
    → is_usable high.type ≡ true
    → Grown low high g
    → SameStatus (g ∷ rest) (low ∷ high ∷ rest)
Grown-SameStatus low high g rest ul uh gr = record {
  usable = λ a. omega (
    arith,
    within-cut a g.base low.size high.base high.size g.size (omega (arith, gr.meets, gr.base))
        gr.size,
    ap (λ b. bit (within a b low.size)) gr.base,
    count-usable a g rest gr.usable,
    count-usable a low (high ∷ rest) ul,
    count-usable a high rest uh,
  );
  held = λ a. omega (
    arith,
    count-usable a g rest gr.usable,
    count-usable a low (high ∷ rest) ul,
    count-usable a high rest uh,
  );
}

Grown-Ordered :
    (lo : ℕ) (low high g : MemoryRegion) (rest : List MemoryRegion)
    → Grown low high g
    → OrderedFrom lo (low ∷ high ∷ rest)
    → OrderedFrom lo (g ∷ rest)
Grown-Ordered lo low high g rest gr h =
    let end : g.base + g.size ≡ high.base + high.size = omega (arith, gr.meets, gr.base, gr.size) in
    (omega (arith, gr.base), omega (arith, gr.size), omega (arith, end), rw end h.3.3)

-- A merge of the loop: the list as it was, and as it is with one region less.
pub record Merge (lo : ℕ) (xs ys : List MemoryRegion) : Type 0 where
  pub ordered : OrderedFrom lo ys
  pub status : SameStatus ys xs
  pub shorter : length xs ≡ suc (length ys)

absorb-here :
    (freed mr g : MemoryRegion) (rest : List MemoryRegion)
    → join freed mr ≡ some g
    → absorb freed (mr ∷ rest) ≡ some (g, rest)
unfolding absorb
absorb-here freed mr g rest e = rw (e, absorb)

absorb-there :
    (freed mr : MemoryRegion) (rest : List MemoryRegion)
    {o : Option (MemoryRegion × List MemoryRegion)}
    → join freed mr ≡ none
    → absorb freed rest ≡ o
    → absorb freed (mr ∷ rest) ≡ elim o [ some (g, r) ↦ some (g, mr ∷ r) | none ↦ none ]
unfolding absorb
absorb-there freed mr rest e e' = rw (e, absorb) (rw (e', absorb))

-- The scan of the regions before `freed` found one to take in.
pub record Lower (lo : ℕ) (freed : MemoryRegion) (before after : List MemoryRegion) : Type 0 where
  pub grown : MemoryRegion
  pub left : List MemoryRegion
  pub runs : absorb freed before ≡ some (grown, left)
  pub usable : is_usable grown.type ≡ true
  pub merge : Merge lo (before ++ freed ∷ after) (left ++ grown ∷ after)

module _ (freed : MemoryRegion) (after : List MemoryRegion) (u : is_usable freed.type ≡ true) where
  freed_fits :
      (lo : ℕ) (before : List MemoryRegion)
      → OrderedFrom lo (before ++ freed ∷ after)
      → freed.base + freed.size < word
  freed_fits lo [] h = h.2
  freed_fits lo (r ∷ rs) h = freed_fits (r.base + r.size) rs h.3

  join-below-near :
      (lo : ℕ) (mr : MemoryRegion) (rest : List MemoryRegion) (g : MemoryRegion)
      → OrderedFrom lo (mr ∷ rest ++ freed ∷ after)
      → join freed mr ≡ some g
      → Grown mr freed g × (is_usable mr.type ≡ true) × (length rest ≡ 0)
  join-below-near lo mr rest g h e =
      let bound = Ordered-bound (mr.base + mr.size) rest freed after h.3 in
      let (gr, um) =
        join-below freed mr u (freed_fits lo (mr ∷ rest) h) h.2 g (omega (arith, bound)) e in
      (gr, um, omega (arith, bound, gr.meets))

  Lower-here :
      (lo : ℕ) (mr : MemoryRegion) (rest : List MemoryRegion) (g : MemoryRegion)
      → OrderedFrom lo (mr ∷ rest ++ freed ∷ after)
      → join freed mr ≡ some g
      → Lower lo freed (mr ∷ rest) after
  Lower-here lo mr (x ∷ xs) g h e = absurd (omega (arith, (join-below-near lo mr (x ∷ xs) g h e).2))
  Lower-here lo mr [] g h e =
      let (gr, um, z) = join-below-near lo mr [] g h e in
      record {
        grown = g;
        left = [];
        runs = absorb-here freed mr g [] e;
        usable = gr.usable;
        merge = record {
          ordered = Grown-Ordered lo mr freed g after gr h;
          status = Grown-SameStatus mr freed g after um u gr;
          shorter = refl;
        };
      }

  Lower-there :
      (lo : ℕ) (mr : MemoryRegion) (rest : List MemoryRegion)
      → OrderedFrom lo (mr ∷ rest ++ freed ∷ after)
      → join freed mr ≡ none
      → Lower (mr.base + mr.size) freed rest after
      → Lower lo freed (mr ∷ rest) after
  Lower-there lo mr rest h e l = record {
    grown = l.grown;
    left = mr ∷ l.left;
    runs = absorb-there freed mr rest e l.runs;
    usable = l.usable;
    merge = record {
      ordered = (h.0, h.1, h.2, l.merge.ordered);
      status = SameStatus-append (mr ∷ []) l.merge.status;
      shorter = ap suc l.merge.shorter;
    };
  }

  -- On an ordered list the scan takes nothing in, or the lower neighbour.
  pub absorb_below :
      (lo : ℕ) (before : List MemoryRegion)
      → OrderedFrom lo (before ++ freed ∷ after)
      → (absorb freed before ≡ none) ⊎ Lower lo freed before after
  absorb_below lo [] h = inl (unfold absorb in refl)
  absorb_below lo (mr ∷ rest) h = elim (Option-cases (join freed mr)) [
    | inr (g, e) ↦ inr (Lower-here lo mr rest g h e)
    | inl e ↦ elim (absorb_below (mr.base + mr.size) rest h.3) [
      | inl e' ↦ inl (absorb-there freed mr rest e e')
      | inr l ↦ inr (Lower-there lo mr rest h e l)
    ]
  ]

-- The scan of the regions behind `freed` found one to take in.
pub record Upper (freed : MemoryRegion) (after : List MemoryRegion) : Type 0 where
  pub grown : MemoryRegion
  pub left : List MemoryRegion
  pub runs : absorb freed after ≡ some (grown, left)
  pub usable : is_usable grown.type ≡ true
  pub ordered : (lo : ℕ) → OrderedFrom lo (freed ∷ after) → OrderedFrom lo (grown ∷ left)
  pub status : SameStatus (grown ∷ left) (freed ∷ after)
  pub shorter : length after ≡ suc (length left)

module _ (freed : MemoryRegion) (u : is_usable freed.type ≡ true)
    (w : freed.base + freed.size < word) where
  -- Behind a gap there is nothing to take in.
  absorb_far :
      (lo : ℕ) (xs : List MemoryRegion)
      → freed.base + freed.size < lo
      → OrderedFrom lo xs
      → absorb freed xs ≡ none
  absorb_far lo [] k h = unfold absorb in refl
  absorb_far lo (mr ∷ rest) k h = elim (Option-cases (join freed mr)) [
    | inl e ↦ absorb-there freed mr rest e (absorb_far (mr.base + mr.size) rest (omega arith) h.3)
    | inr (g, e) ↦
        let (gr, um) = join-above freed mr u w h.2 g (omega arith) e in
        absurd (omega (arith, gr.meets))
  ]

  -- On an ordered list the scan takes nothing in, or the upper neighbour.
  pub absorb_above :
      (after : List MemoryRegion)
      → OrderedFrom (freed.base + freed.size) after
      → (absorb freed after ≡ none) ⊎ Upper freed after
  absorb_above [] h = inl (unfold absorb in refl)
  absorb_above (mr ∷ rest) h = elim (Option-cases (join freed mr)) [
    | inl e ↦
        inl (absorb-there freed mr rest e (absorb_far (mr.base + mr.size) rest (omega arith) h.3))
    | inr (g, e) ↦
        let (gr, um) = join-above freed mr u w h.2 g h.0 e in
        inr (record {
          grown = g;
          left = rest;
          runs = absorb-here freed mr g rest e;
          usable = gr.usable;
          ordered = λ lo o. Grown-Ordered lo freed mr g rest gr o;
          status = Grown-SameStatus freed mr g rest u um gr;
          shorter = refl;
        })
  ]
