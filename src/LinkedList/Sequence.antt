-- ===== src/LinkedList/Sequence.antt =====
-- `List_Add`, `List_InsertAt` and `List_Remove` of kernel/list.c on the whole sequence of items.
use mathlib.Core.List.{append_assoc, append-nil}
use atom_os.Prelude.{
  ℕ, ◌+◌, ◌-◌, ◌≡◌, ◌≢◌, ◌<◌, ◌∙◌, ap, sym, subst, true, false, some, List, [], ◌∷◌, ◌++◌, arith,
  ltb, ◌==◌, length, length-append, word, inl, inr,
}
use atom_os.LinkedList.{LinkedList, Memory, list_add, walk, list_insert_at}
use atom_os.LinkedList.Chain.{Cell, Absent, last_cell, walk_lem}
use atom_os.LinkedList.Laws.{IsList}
use atom_os.LinkedList.Inserts.{add_first, add_behind, insert_first, insert_behind}

module _ (l : LinkedList) (h : Memory) (node item : ℕ) (z : node ≢ 0) where
  -- Where the list holds the cells of `cs`, fewer than 2^64 - 1, and `malloc` answers a node that is none of
  -- theirs, `list_add` ends with a list that holds these cells and then the new one.
  pub list_add_lem :
      (cs : List Cell)
      → length cs + 1 < word
      → Absent node cs
      → IsList l h cs
      → (l' : LinkedList) × (h' : Memory) × (list_add node item l h ≡ some (l', h'))
        × IsList l' h' (cs ++ (node, item) ∷ [])
  list_add_lem cs n f i = elim (last_cell cs) [
    | inl e ↦ subst Added (sym e) (add_first l h node item z (subst (IsList l h) e i))
    | inr (pre, p, e) ↦ subst Added (sym e) (
        behind pre p (omega (arith, ap length e, length-append {0} pre (p ∷ [])))
          (subst (Absent node) e f) (subst (IsList l h) e i))
  ]
    where
      Added : List Cell → Type 0
      Added cs =
          (l' : LinkedList) × (h' : Memory) × (list_add node item l h ≡ some (l', h'))
          × IsList l' h' (cs ++ (node, item) ∷ [])

      behind :
          (pre : List Cell) (p : Cell)
          → length pre + 2 < word
          → Absent node (pre ++ p ∷ [])
          → IsList l h (pre ++ p ∷ [])
          → Added (pre ++ p ∷ [])
      behind pre p n f i =
          let (l', h', e, j) = add_behind l h node item z pre p n f i in
          (l', h', e, subst (IsList l' h') (sym (append_assoc pre (p ∷ []) ((node, item) ∷ []))) j)

  abbrev Inserted : List Cell → List Cell → Type 0
  Inserted b a =
      (l' : LinkedList) × (h' : Memory) × (list_insert_at node (length b) item l h
        ≡ some (true, l', h'))
      × IsList l' h' (b ++ (node, item) ∷ a)

  insert_last : (b : List Cell) → length b + 1 < word → Absent node b → IsList l h b → Inserted b []
  unfolding list_insert_at
  insert_last b n f i =
      let (l', h', e, j) = list_add_lem b n f i in
      let t : ltb l.count (length b) ≡ false = ground (arith, i.counts) in
      let u : (length b == l.count) ≡ true = ground (arith, i.counts) in
      (l', h', rw (list_insert_at, t, u, e), j)

  insert_between :
      (pre : List Cell) (p c : Cell) (a : List Cell)
      → length pre + length a + 3 < word
      → Absent node ((pre ++ p ∷ []) ++ c ∷ a)
      → IsList l h ((pre ++ p ∷ []) ++ c ∷ a)
      → Inserted (pre ++ p ∷ []) (c ∷ a)
  unfolding list_insert_at
  insert_between pre p c a n f i =
      let i' = subst (IsList l h) (append_assoc pre (p ∷ []) (c ∷ a)) i in
      let (l', h', e, j) =
        insert_behind l h node item z pre p c a n
          (subst (Absent node) (append_assoc pre (p ∷ []) (c ∷ a)) f) i' in
      let size = length-append {0} pre (p ∷ []) in
      let more = length-append {0} pre (p ∷ c ∷ a) in
      let t : ltb l.count (length (pre ++ p ∷ [])) ≡ false =
        ground (arith, i'.counts, size, more) in
      let u : (length (pre ++ p ∷ []) == l.count) ≡ false = ground (arith, i'.counts, size, more) in
      let v : (node == 0) ≡ false = ground arith in
      let w : (length (pre ++ p ∷ []) == 0) ≡ false = ground (arith, size) in
      let s : length (pre ++ p ∷ []) - 1 ≡ length pre = omega (arith, size) in
      let k = ap (λ x. walk (length pre) h 0 x) i'.heads ∙ walk_lem h pre p (c ∷ a) 0 0 i'.linked in
      (
        l',
        h',
        rw (list_insert_at, t, u, v, w, s, k, e),
        subst (IsList l' h') (sym (append_assoc pre (p ∷ []) ((node, item) ∷ c ∷ a))) j,
      )

  -- Where the list holds the cells of `b` and then those of `a`, fewer than 2^64 - 1, and `malloc` answers a
  -- node that is none of theirs, `list_insert_at` at the number of cells in `b` ends with true and a list that
  -- holds the new cell between them.
  pub list_insert_at_lem :
      (b a : List Cell)
      → length (b ++ a) + 1 < word
      → Absent node (b ++ a)
      → IsList l h (b ++ a)
      → (l' : LinkedList) × (h' : Memory) × (list_insert_at node (length b) item l h
          ≡ some (true, l', h'))
        × IsList l' h' (b ++ (node, item) ∷ a)
  list_insert_at_lem b [] n f i =
      let e = append-nil b in
      insert_last b (omega (arith, ap length e)) (subst (Absent node) e f) (subst (IsList l h) e i)
  list_insert_at_lem b (c ∷ a) n f i = elim (last_cell b) [
    | inl e ↦
        subst (λ x. Inserted x (c ∷ a)) (sym e)
          (insert_first l h node item z c a
            (omega (arith, ap length e, length-append {0} b (c ∷ a)))
            (subst (λ x. Absent node (x ++ c ∷ a)) e f) (subst (λ x. IsList l h (x ++ c ∷ a)) e i))
    | inr (pre, p, e) ↦
        subst (λ x. Inserted x (c ∷ a)) (sym e)
          (insert_between pre p c a
            (omega
              (arith, ap length e, length-append {0} b (c ∷ a), length-append {0} pre (p ∷ [])))
            (subst (λ x. Absent node (x ++ c ∷ a)) e f) (subst (λ x. IsList l h (x ++ c ∷ a)) e i))
  ]
