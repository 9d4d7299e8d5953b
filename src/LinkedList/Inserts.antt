-- ===== src/LinkedList/Inserts.antt =====
-- `List_Add` and `List_InsertAt` of kernel/list.c as operations on the sequence of items.
use mathlib.Core.List.{append_assoc}
use atom_os.Prelude.{
  ℕ, ◌+◌, ◌≡◌, ◌≢◌, ◌<◌, ◌∙◌, ap, sym, subst, refl, true, false, some, List, [], ◌∷◌, ◌++◌, arith,
  ltb, ◌==◌, if◌then◌else◌, length, length-append, word, add64, All-parts,
}
use atom_os.LinkedList.{LinkedList, Memory, write_node, list_add, link_behind, list_insert_at}
use atom_os.LinkedList.Chain.{
  Cell, last_of, node_of, Linked, Absent, Distinct, write_node-here, write_node-elsewhere,
  Linked-frame, start-append, start_nonzero, relink, Linked-append, Distinct-insert,
  Distinct-behind, last_of-append,
}
use atom_os.LinkedList.Laws.{IsList, set_next-some}

Distinct-second :
    (pre : List Cell) (p c : Cell) (a : List Cell)
    → Distinct (pre ++ p ∷ a)
    → Absent c.0 (pre ++ p ∷ a)
    → Distinct (pre ++ p ∷ c ∷ a)
Distinct-second pre p c a d n = subst Distinct (append_assoc pre (p ∷ []) (c ∷ a)) (
    Distinct-insert (pre ++ p ∷ []) c a (subst Distinct (sym (append_assoc pre (p ∷ []) a)) d)
      (subst (Absent c.0) (sym (append_assoc pre (p ∷ []) a)) n))

last_nonzero :
    (h : Memory) (k : ℕ) (cs : List Cell) (end : ℕ) → k ≢ 0 → Linked h cs end → last_of k cs ≢ 0
last_nonzero h k [] end z l = z
last_nonzero h k (c ∷ cs) end z l = last_nonzero h c.0 cs end l.0 l.2

module _ (l : LinkedList) (h : Memory) (node item : ℕ) (z : node ≢ 0) where
  -- Memory once the new node has been filled in, with `next`.
  abbrev filled : ℕ → Memory
  filled next = write_node h node (record { datum = item; next = next })

  filled-Linked :
      (next : ℕ) (cs : List Cell) → Absent node cs → Linked h cs 0 → Linked (filled next) cs 0
  filled-Linked next cs n k =
      Linked-frame node h (filled next) cs 0
        (λ x e. write_node-elsewhere h node x (record { datum = item; next = next }) e) n k

  pub add_first :
      IsList l h []
      → (l' : LinkedList) × (h' : Memory) × (list_add node item l h ≡ some (l', h'))
        × IsList l' h' ((node, item) ∷ [])
  unfolding list_add
  add_first i =
      let t : (node == 0) ≡ false = ground arith in
      let u : (l.head == 0) ≡ true = ground (arith, i.heads) in
      (
        record { head = node; tail = node; count = add64 l.count 1 },
        filled 0,
        rw (list_add, t, u),
        record {
          heads = refl;
          tails = refl;
          counts = ground (arith, i.counts);
          linked = (z, write_node-here h node (record { datum = item; next = 0 }), tt);
          distinct = (tt, tt);
        },
      )

  module _ (pre : List Cell) (p : Cell) where
    pub add_behind :
        length pre + 2 < word
        → Absent node (pre ++ p ∷ [])
        → IsList l h (pre ++ p ∷ [])
        → (l' : LinkedList) × (h' : Memory) × (list_add node item l h ≡ some (l', h'))
          × IsList l' h' (pre ++ p ∷ (node, item) ∷ [])
    unfolding list_add
    add_behind n f i =
        let t : (node == 0) ≡ false = ground arith in
        let u : (l.head == 0) ≡ false =
          ground (arith, i.heads, start_nonzero h pre p [] 0 i.linked) in
        let k = filled-Linked 0 (pre ++ p ∷ []) f i.linked in
        let m = Linked-append (filled 0) pre (p ∷ []) 0 k in
        let q = All-parts (λ c. c.0 ≢ node) pre p [] f in
        let e : l.tail ≡ p.0 = i.tails ∙ last_of-append 0 pre (p ∷ []) in
        (
          record l { tail = node; count = add64 l.count 1 },
          write_node (filled 0) p.0 (node_of p node),
          rw (list_add, t, u, e, set_next-some (filled 0) p 0 node m.1),
          record {
            heads = i.heads ∙ start-append pre p [] ((node, item) ∷ []) 0 0;
            tails = sym (last_of-append 0 pre (p ∷ (node, item) ∷ []));
            counts = ground (
              arith,
              i.counts,
              length-append {0} pre (p ∷ []),
              length-append {0} pre (p ∷ (node, item) ∷ []),
            );
            linked =
                relink (filled 0) pre p [] ((node, item) ∷ []) 0 0 k i.distinct
                  ((λ x. q.1 (sym x)), tt)
                  (z, write_node-here h node (record { datum = item; next = 0 }), tt);
            distinct = Distinct-second pre p (node, item) [] i.distinct f;
          },
        )

  pub insert_first :
      (c : Cell) (a : List Cell)
      → length a + 2 < word
      → Absent node (c ∷ a)
      → IsList l h (c ∷ a)
      → (l' : LinkedList) × (h' : Memory) × (list_insert_at node 0 item l h ≡ some (true, l', h'))
        × IsList l' h' ((node, item) ∷ c ∷ a)
  unfolding list_insert_at
  insert_first c a n f i =
      let t : (node == 0) ≡ false = ground arith in
      let u : ltb l.count 0 ≡ false = ground arith in
      let v : (0 == l.count) ≡ false = ground (arith, i.counts) in
      let m = last_nonzero h c.0 a 0 i.linked.0 i.linked.2 in
      let w : (l.tail == 0) ≡ false = ground (arith, i.tails, m) in
      (
        record {
          head = node;
          tail = if l.tail == 0 then node else l.tail;
          count = add64 l.count 1;
        },
        filled l.head,
        rw (list_insert_at, u, v, t),
        record {
          heads = refl;
          tails = rw w i.tails;
          counts = ground (arith, i.counts);
          linked = (
            z,
            write_node-here h node (record { datum = item; next = l.head })
                ∙ ap (λ x. some (record { datum = item; next = x })) i.heads,
            filled-Linked l.head (c ∷ a) f i.linked,
          );
          distinct = (f, i.distinct);
        },
      )

  pub insert_behind :
      (pre : List Cell) (p c : Cell) (a : List Cell)
      → length pre + length a + 3 < word
      → Absent node (pre ++ p ∷ c ∷ a)
      → IsList l h (pre ++ p ∷ c ∷ a)
      → (l' : LinkedList) × (h' : Memory) × (link_behind p.0 node item l h ≡ some (true, l', h'))
        × IsList l' h' (pre ++ p ∷ (node, item) ∷ c ∷ a)
  unfolding link_behind
  insert_behind pre p c a n f i =
      let m = Linked-append h pre (p ∷ c ∷ a) 0 i.linked in
      let t : (c.0 == 0) ≡ false = ground (arith, m.2.0) in
      let q = All-parts (λ c. c.0 ≢ node) pre p (c ∷ a) f in
      (
        record l { tail = if c.0 == 0 then node else l.tail; count = add64 l.count 1 },
        write_node (filled c.0) p.0 (node_of p node),
        rw (link_behind, m.1),
        record {
          heads = i.heads ∙ start-append pre p (c ∷ a) ((node, item) ∷ c ∷ a) 0 0;
          tails = rw t (
              i.tails
              ∙ last_of-append 0 pre (p ∷ c ∷ a)
              ∙ sym (last_of-append 0 pre (p ∷ (node, item) ∷ c ∷ a)));
          counts = ground (
            arith,
            i.counts,
            length-append {0} pre (p ∷ c ∷ a),
            length-append {0} pre (p ∷ (node, item) ∷ c ∷ a),
          );
          linked =
              relink (filled c.0) pre p (c ∷ a) ((node, item) ∷ c ∷ a) 0 0
                (filled-Linked c.0 (pre ++ p ∷ c ∷ a) f i.linked) i.distinct
                ((λ x. q.1 (sym x)), (Distinct-behind pre p (c ∷ a) i.distinct).0)
                (
                  z,
                  write_node-here h node (record { datum = item; next = c.0 }),
                  filled-Linked c.0 (c ∷ a) q.2 m.2,
                );
          distinct = Distinct-second pre p (node, item) (c ∷ a) i.distinct f;
        },
      )
