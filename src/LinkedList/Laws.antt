-- ===== src/LinkedList/Laws.antt =====
-- The operations of kernel/list.c as operations on the sequence of items.
use mathlib.Core.List.{append_assoc}
use atom_os.Prelude.{
  ℕ, ◌+◌, ◌≡◌, ◌<◌, ◌∙◌, ap, sym, subst, refl, true, false, none, some, List, [], ◌∷◌, ◌++◌, arith,
  leb, ◌==◌, if◌then◌else◌, length, length-append, word, sub64, inl, inr,
}
use atom_os.LinkedList.{
  LinkedList, Memory, write_node, free_node, set_next, walk, unlink, list_remove_at, list_get_at,
}
use atom_os.LinkedList.Chain.{
  Cell, start, last_of, node_of, Linked, Absent, Distinct, free_node-here, free_node-elsewhere,
  Linked-frame, start-append, relink, Linked-append, Distinct-parts, Distinct-behind,
  last_of-append, last_of-Absent, last_cell, walk_lem,
}

-- The list holds the cells.
pub record IsList (l : LinkedList) (h : Memory) (cs : List Cell) : Type 0 where
  pub heads : l.head ≡ start cs 0
  pub tails : l.tail ≡ last_of 0 cs
  pub counts : l.count ≡ length cs
  pub linked : Linked h cs 0
  pub distinct : Distinct cs

pub set_next-some :
    (h : Memory) (p : Cell) (old next : ℕ)
    → h p.0 ≡ some (node_of p old)
    → set_next h p.0 next ≡ some (write_node h p.0 (node_of p next))
unfolding set_next
set_next-some h p old next e = rw (set_next, e)

module _ (l : LinkedList) (h : Memory) (c : Cell) (a : List Cell) where
  -- The result of `unlink` at the head.
  unlink_first :
      length a + 1 < word
      → IsList l h (c ∷ a)
      → (l' : LinkedList) × (h' : Memory) × (unlink 0 c.0 l h ≡ some (l', h'))
        × IsList l' h' a
        × (h' c.0 ≡ none)
  unfolding unlink
  unlink_first n i = (
    record {
      head = start a 0;
      tail = if l.tail == c.0 then start a 0 else l.tail;
      count = sub64 l.count 1;
    },
    free_node h c.0,
    rw (unlink, i.linked.1),
    record {
      heads = refl;
      tails = tails a i.tails i.distinct.0;
      counts = ground (arith, i.counts);
      linked =
          Linked-frame c.0 h (free_node h c.0) a 0 (free_node-elsewhere h c.0) i.distinct.0
            i.linked.2;
      distinct = i.distinct.1;
    },
    free_node-here h c.0,
  )
    where
      tails :
          (a : List Cell)
          → l.tail ≡ last_of c.0 a
          → Absent c.0 a
          → (if l.tail == c.0 then start a 0 else l.tail) ≡ last_of 0 a
      tails [] e n = let t : (l.tail == c.0) ≡ true = ground (arith, e) in rw t
      tails (d ∷ a) e n =
          let m = last_of-Absent d.0 c.0 a n.0 n.1 in
          let t : (l.tail == c.0) ≡ false = ground (arith, e, m) in rw t e

  -- The result of `unlink` behind the node of `p`.
  unlink_behind :
      (pre : List Cell) (p : Cell)
      → length pre + length a + 2 < word
      → IsList l h (pre ++ p ∷ c ∷ a)
      → (l' : LinkedList) × (h' : Memory) × (unlink p.0 c.0 l h ≡ some (l', h'))
        × IsList l' h' (pre ++ p ∷ a)
        × (h' c.0 ≡ none)
  unfolding unlink
  unlink_behind pre p n i =
      let k = Linked-append h pre (p ∷ c ∷ a) 0 i.linked in
      let t : (p.0 == 0) ≡ false = ground (arith, k.0) in
      let (apart, d) = shorter in
      let s =
        relink h pre p (c ∷ a) a 0 0 i.linked i.distinct
          (Distinct-behind pre p (c ∷ a) i.distinct).0.1 k.2.2 in
      (
        record l { tail = if l.tail == c.0 then p.0 else l.tail; count = sub64 l.count 1 },
        free_node (write_node h p.0 (node_of p (start a 0))) c.0,
        rw (unlink, k.2.1, t, set_next-some h p c.0 (start a 0) k.1),
        record {
          heads = i.heads ∙ start-append pre p (c ∷ a) a 0 0;
          tails =
              tails a (i.tails ∙ last_of-append 0 pre (p ∷ c ∷ a))
                (Distinct-behind pre p (c ∷ a) i.distinct).1.0
              ∙ sym (last_of-append 0 pre (p ∷ a));
          counts =
              ground
                (arith, i.counts, length-append {0} pre (p ∷ c ∷ a), length-append {0} pre (p ∷ a));
          linked =
              Linked-frame c.0 (write_node h p.0 (node_of p (start a 0)))
                (free_node (write_node h p.0 (node_of p (start a 0))) c.0) (pre ++ p ∷ a) 0
                (free_node-elsewhere (write_node h p.0 (node_of p (start a 0))) c.0) apart s;
          distinct = d;
        },
        free_node-here (write_node h p.0 (node_of p (start a 0))) c.0,
      )
    where
      shorter : Absent c.0 (pre ++ p ∷ a) × Distinct (pre ++ p ∷ a)
      shorter =
          subst (λ x. Absent c.0 x × Distinct x) (append_assoc pre (p ∷ []) a)
            (Distinct-parts (pre ++ p ∷ []) c a
              (subst Distinct (sym (append_assoc pre (p ∷ []) (c ∷ a))) i.distinct))

      tails :
          (a : List Cell)
          → l.tail ≡ last_of c.0 a
          → Absent c.0 a
          → (if l.tail == c.0 then p.0 else l.tail) ≡ last_of p.0 a
      tails [] e n = let t : (l.tail == c.0) ≡ true = ground (arith, e) in rw t
      tails (d ∷ a) e n =
          let m = last_of-Absent d.0 c.0 a n.0 n.1 in
          let t : (l.tail == c.0) ≡ false = ground (arith, e, m) in rw t e

-- `unlink` has taken the cell out of the list, and freed its node.
abbrev pub Unlinked : LinkedList → Memory → List Cell → Cell → List Cell → Type 0
Unlinked l h b c a =
    (l' : LinkedList) × (h' : Memory) × (unlink (last_of 0 b) c.0 l h ≡ some (l', h'))
    × IsList l' h' (b ++ a)
    × (h' c.0 ≡ none)

pub unlink-Unlinked :
    (l : LinkedList) (h : Memory) (b : List Cell) (c : Cell) (a : List Cell)
    → length (b ++ c ∷ a) < word
    → IsList l h (b ++ c ∷ a)
    → Unlinked l h b c a
unlink-Unlinked l h b c a n i = elim (last_cell b) [
  | inl e ↦
      subst (λ x. Unlinked l h x c a) (sym e)
        (unlink_first l h c a (omega (arith, length-append {0} b (c ∷ a)))
          (subst (λ x. IsList l h (x ++ c ∷ a)) e i))
  | inr (pre, p, e) ↦
      subst (λ x. Unlinked l h x c a) (sym e)
        (behind pre p
          (omega (arith, length-append {0} b (c ∷ a), ap length e, length-append {0} pre (p ∷ [])))
          (subst (λ x. IsList l h (x ++ c ∷ a)) e i))
]
  where
    behind :
        (pre : List Cell) (p : Cell)
        → length pre + length a + 2 < word
        → IsList l h ((pre ++ p ∷ []) ++ c ∷ a)
        → Unlinked l h (pre ++ p ∷ []) c a
    behind pre p m i =
        let (l', h', e, i', f) =
          unlink_behind l h c a pre p m
            (subst (IsList l h) (append_assoc pre (p ∷ []) (c ∷ a)) i) in
        (
          l',
          h',
          ap (λ k. unlink k c.0 l h) (last_of-append 0 pre (p ∷ [])) ∙ e,
          subst (IsList l' h') (sym (append_assoc pre (p ∷ []) a)) i',
          f,
        )

module _ (l : LinkedList) (h : Memory) (b : List Cell) (c : Cell) (a : List Cell) where
  -- Where the list holds the cells of `b`, then `c`, then those of `a`, fewer than 2^64, `list_get_at` at the
  -- number of cells in `b` ends with the datum of `c`, and `list_remove_at` there ends with true and a list
  -- that holds the cells of `b` and `a`, and has freed the node of `c`.
  pub list_remove_at_lem :
      length (b ++ c ∷ a) < word
      → IsList l h (b ++ c ∷ a)
      → (l' : LinkedList) × (h' : Memory) × (list_get_at (length b) l h ≡ some (some c.1))
        × (list_remove_at (length b) l h ≡ some (true, l', h'))
        × IsList l' h' (b ++ a)
        × (h' c.0 ≡ none)
  list_remove_at_lem n i =
      let (l', h', e, i', f) = unlink-Unlinked l h b c a n i in
      (l', h', gets, removes l' h' e, i', f)
    where
      inside : leb l.count (length b) ≡ false
      inside = ground (arith, i.counts, length-append {0} b (c ∷ a))

      walks : walk (length b) h 0 l.head ≡ some (last_of 0 b, c.0)
      walks = ap (λ x. walk (length b) h 0 x) i.heads ∙ walk_lem h b c a 0 0 i.linked

      gets : list_get_at (length b) l h ≡ some (some c.1)
      gets =
          unfold list_get_at in
          (let k = Linked-append h b (c ∷ a) 0 i.linked in
            let t : (c.0 == 0) ≡ false = ground (arith, k.0) in rw (inside, walks, t, k.1))

      removes :
          (l' : LinkedList) (h' : Memory)
          → unlink (last_of 0 b) c.0 l h ≡ some (l', h')
          → list_remove_at (length b) l h ≡ some (true, l', h')
      removes l' h' e = unfold list_remove_at in rw (inside, walks, e)
