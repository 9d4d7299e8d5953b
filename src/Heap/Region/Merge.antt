-- ===== src/Heap/Region/Merge.antt =====
-- The merging of a released node with its neighbours, on the blocks of its region.
use mathlib.Core.Path.{subst₂}
use atom_os.Prelude.{
  ◌⊎◌, ◌≤◌, ℕ, ◌+◌, ◌≡◌, ◌≢◌, ◌<◌, ◌∙◌, ap, sym, subst, refl, Bool, true, false, not, ◌&&◌, ◌==◌,
  List, [], ◌∷◌, arith, Bool-cases, inl, inr,
}
use atom_os.Heap.Node.{HeapNode, Store, heap_magic, header, put}
use atom_os.Heap.Blocks.{Block, block, Chain, merge_front}
use atom_os.Heap.Region.{join_next, join_prev}
use atom_os.Heap.Region.Chain.{Chain-frame, Chain-bounds, put_self, put_ne}

module _ (h : Store) (a e : ℕ) (b : Block) (bs : List Block) (c : Chain h a (b ∷ bs) e) where
  -- A new header at `a` that keeps the end of the block.
  pub Chain-put :
      (n : HeapNode) (f : Bool)
      → n.magic ≡ heap_magic
      → n.is_free ≡ f
      → n.next ≡ (h a).next
      → Chain (put h a n) a (block f b.size ∷ bs) e
  Chain-put n f m q x =
      let s = put_self h a n in
      (
        c.0,
        ap (λ y. y.magic) s ∙ m,
        ap (λ y. y.is_free) s ∙ q,
        ap (λ y. y.next) s ∙ x ∙ c.3,
        Chain-frame h (put h a n) (a + (header + b.size)) e bs (λ y l. put_ne h a y n (omega arith))
            c.4,
      )

-- A new header at `a` that takes the next block in.
Chain-merge :
    (h : Store) (a e : ℕ) (b d : Block) (bs : List Block) (n : HeapNode)
    → Chain h a (b ∷ d ∷ bs) e
    → n.magic ≡ heap_magic
    → n.is_free ≡ true
    → n.next ≡ (h (a + (header + b.size))).next
    → Chain (put h a n) a (block true (b.size + (header + d.size)) ∷ bs) e
Chain-merge h a e b d bs n c m q x =
    let s = put_self h a n in
    let end : a + (header + b.size) + (header + d.size)
        ≡ a + (header + (b.size + (header + d.size))) =
      omega arith in
    (
      c.0,
      ap (λ y. y.magic) s ∙ m,
      ap (λ y. y.is_free) s ∙ q,
      ap (λ y. y.next) s ∙ x ∙ c.4.3 ∙ end,
      subst (λ z. Chain (put h a n) z bs e) end
          (Chain-frame h (put h a n) (a + (header + b.size) + (header + d.size)) e bs
            (λ y l. put_ne h a y n (omega arith)) c.4.4),
    )

and-not-zero : (x : ℕ) (f : Bool) → x ≢ 0 → (not (x == 0) && f) ≡ f
and-not-zero x f ne = ground arith

module _ (h : Store) (a : ℕ) where
  join_next-yes :
      (h a).next ≢ 0
      → (h (h a).next).is_free ≡ true
      → join_next h a ≡ put h a (record (h a) { next = (h (h a).next).next })
  unfolding join_next
  join_next-yes ne f = rw (and-not-zero (h a).next (h (h a).next).is_free ne ∙ f)

  join_next-no : (h a).next ≢ 0 → (h (h a).next).is_free ≡ false → join_next h a ≡ h
  unfolding join_next
  join_next-no ne f = rw (and-not-zero (h a).next (h (h a).next).is_free ne ∙ f)

  join_prev-yes :
      (q : ℕ)
      → q ≢ 0
      → (h q).is_free ≡ true
      → join_prev h a q ≡ put h q (record { magic = heap_magic; is_free = true; next = (h a).next })
  unfolding join_prev
  join_prev-yes q ne f = rw (and-not-zero q (h q).is_free ne ∙ f)

  join_prev-no : (q : ℕ) → q ≢ 0 → (h q).is_free ≡ false → join_prev h a q ≡ h
  unfolding join_prev
  join_prev-no q ne f = rw (and-not-zero q (h q).is_free ne ∙ f)

  pub join_prev-none : join_prev h a 0 ≡ h
  unfolding join_prev
  join_prev-none = refl

-- What a step makes of the store `h`: a chain of the blocks, and nothing outside it written.
pub record Rewrites (h g : Store) (a e : ℕ) (bs : List Block) : Type 0 where
  pub chain : Chain g a bs e
  pub frame : (x : ℕ) → (x < a) ⊎ (e ≤ x) → g x ≡ h x

merge_front-free :
    (b d : Block) (bs : List Block)
    → b.free ≡ true
    → d.free ≡ true
    → merge_front b (d ∷ bs) ≡ block true (b.size + (header + d.size)) ∷ bs
merge_front-free b d bs f g = rw (f, g)

merge_front-held :
    (b d : Block) (bs : List Block)
    → (b.free && d.free) ≡ false
    → merge_front b (d ∷ bs) ≡ b ∷ d ∷ bs
merge_front-held b d bs f = rw f

module _ (h : Store) (a e size : ℕ) where
  pub join_next-Rewrites :
      (bs : List Block)
      → Chain h a (block true size ∷ bs) e
      → Rewrites h (join_next h a) a e (merge_front (block true size) bs)
  join_next-Rewrites [] c =
      let ne : (h a).next ≢ 0 = λ z. c.4.1 (sym c.3 ∙ z) in
      let held = ap (λ x. (h x).is_free) c.3 ∙ c.4.3 in
      subst (λ g. Rewrites h g a e (block true size ∷ [])) (sym (join_next-no h a ne held))
        (record { chain = c; frame = λ x l. refl })
  join_next-Rewrites (d ∷ bs) c =
      let ne : (h a).next ≢ 0 = λ z. c.4.0 (sym c.3 ∙ z) in
      let same = ap (λ x. (h x).is_free) c.3 ∙ c.4.2 in
      elim (Bool-cases d.free) [
        | inl f ↦
            subst₂ (λ g l. Rewrites h g a e l) (sym (join_next-yes h a ne (same ∙ f)))
              (sym (merge_front-free (block true size) d bs refl f))
              (record {
                chain =
                    Chain-merge h a e (block true size) d bs _ c c.1 c.2 (ap (λ x. (h x).next) c.3);
                frame = λ x l.
                    put_ne h a x _
                      (ground (arith, l, Chain-bounds h (a + (header + size)) e (d ∷ bs) c.4));
              })
        | inr f ↦
            subst₂ (λ g l. Rewrites h g a e l) (sym (join_next-no h a ne (same ∙ f)))
              (sym (merge_front-held (block true size) d bs f))
              (record { chain = c; frame = λ x l. refl })
      ]

module _ (h : Store) (q e : ℕ) (b d : Block) (bs : List Block) (c : Chain h q (b ∷ d ∷ bs) e)
    (df : d.free ≡ true) where
  pub join_prev-Rewrites :
      Rewrites h (join_prev h (q + (header + b.size)) q) q e (merge_front b (d ∷ bs))
  join_prev-Rewrites = elim (Bool-cases b.free) [
    | inl f ↦
        subst₂ (λ g l. Rewrites h g q e l)
          (sym (join_prev-yes h (q + (header + b.size)) q c.0 (c.2 ∙ f)))
          (sym (merge_front-free b d bs f df))
          (record {
            chain = Chain-merge h q e b d bs _ c refl refl refl;
            frame = λ x l.
                put_ne h q x _
                  (ground (arith, l, Chain-bounds h (q + (header + b.size)) e (d ∷ bs) c.4));
          })
    | inr f ↦
        subst₂ (λ g l. Rewrites h g q e l)
          (sym (join_prev-no h (q + (header + b.size)) q c.0 (c.2 ∙ f)))
          (sym (merge_front-held b d bs (ap (λ x. x && d.free) f)))
          (record { chain = c; frame = λ x l. refl })
  ]
