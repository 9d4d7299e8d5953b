-- ===== src/LinkedList/Chain.antt =====
-- Nodes in memory that stand for a sequence of cells, an address and a datum each.
use atom_os.Prelude.{
  ℕ, ◌≡◌, ◌≢◌, ◌⊎◌, ◌∙◌, ap, sym, refl, true, false, none, some, List, [], ◌∷◌, ◌++◌, arith, ◌==◌,
  length, inl, inr, All, All-append, All-parts,
}
use atom_os.LinkedList.{ListNode, Memory, write_node, free_node, walk}

abbrev pub Cell : Type 0
Cell = ℕ × ℕ

-- The address of the first cell; `end` is the pointer behind the last.
abbrev pub start : List Cell → ℕ → ℕ
start [] end = end
start (c ∷ cs) end = c.0

-- The address of the last cell.
abbrev pub last_of : ℕ → List Cell → ℕ
last_of prev [] = prev
last_of prev (c ∷ cs) = last_of c.0 cs

abbrev pub node_of : Cell → ℕ → ListNode
node_of c next = record { datum = c.1; next = next }

-- The cells are nodes, each of which points to the next.
abbrev pub Linked : Memory → List Cell → ℕ → Type 0
Linked h [] end = Unit
Linked h (c ∷ cs) end = (c.0 ≢ 0) × (h c.0 ≡ some (node_of c (start cs end))) × Linked h cs end

-- No cell is at the address.
abbrev pub Absent : ℕ → List Cell → Type 0
Absent a cs = All (λ c. c.0 ≢ a) cs

abbrev pub Distinct : List Cell → Type 0
Distinct [] = Unit
Distinct (c ∷ cs) = Absent c.0 cs × Distinct cs

pub write_node-here : (h : Memory) (a : ℕ) (n : ListNode) → write_node h a n a ≡ some n
unfolding write_node
write_node-here h a n = let t : (a == a) ≡ true = ground arith in rw t

pub write_node-elsewhere : (h : Memory) (a x : ℕ) (n : ListNode) → x ≢ a → write_node h a n x ≡ h x
unfolding write_node
write_node-elsewhere h a x n d = let t : (x == a) ≡ false = ground arith in rw t

pub free_node-elsewhere : (h : Memory) (a x : ℕ) → x ≢ a → free_node h a x ≡ h x
unfolding free_node
free_node-elsewhere h a x d = let t : (x == a) ≡ false = ground arith in rw t

pub free_node-here : (h : Memory) (a : ℕ) → free_node h a a ≡ none
unfolding free_node
free_node-here h a = let t : (a == a) ≡ true = ground arith in rw t

-- Memory that agrees at all addresses but one.
abbrev pub Agrees : ℕ → Memory → Memory → Type 0
Agrees a h h' = (x : ℕ) → x ≢ a → h' x ≡ h x

pub Linked-frame :
    (a : ℕ) (h h' : Memory) (cs : List Cell) (end : ℕ)
    → Agrees a h h'
    → Absent a cs
    → Linked h cs end
    → Linked h' cs end
Linked-frame a h h' [] end g n l = tt
Linked-frame a h h' (c ∷ cs) end g n l =
    (l.0, g c.0 n.0 ∙ l.1, Linked-frame a h h' cs end g n.1 l.2)

pub start-append :
    (pre : List Cell) (p : Cell) (xs ys : List Cell) (end end' : ℕ)
    → start (pre ++ p ∷ xs) end ≡ start (pre ++ p ∷ ys) end'
start-append [] p xs ys end end' = refl
start-append (c ∷ pre) p xs ys end end' = refl

pub start_nonzero :
    (h : Memory) (pre : List Cell) (p : Cell) (xs : List Cell) (end : ℕ)
    → Linked h (pre ++ p ∷ xs) end
    → start (pre ++ p ∷ xs) end ≢ 0
start_nonzero h [] p xs end l = l.0
start_nonzero h (c ∷ pre) p xs end l = l.0

-- The node `p` is made to point to other cells.
pub relink :
    (h : Memory) (pre : List Cell) (p : Cell) (xs ys : List Cell) (end end' : ℕ)
    → Linked h (pre ++ p ∷ xs) end
    → Distinct (pre ++ p ∷ xs)
    → Absent p.0 ys
    → Linked h ys end'
    → Linked (write_node h p.0 (node_of p (start ys end'))) (pre ++ p ∷ ys) end'
relink h [] p xs ys end end' l d n k = (
  l.0,
  write_node-here h p.0 (node_of p (start ys end')),
  Linked-frame p.0 h (write_node h p.0 (node_of p (start ys end'))) ys end'
      (λ x e. write_node-elsewhere h p.0 x (node_of p (start ys end')) e) n k,
)
relink h (c ∷ pre) p xs ys end end' l d n k =
    let apart : c.0 ≢ p.0 = λ e. (All-parts (λ k. k.0 ≢ c.0) pre p xs d.0).1 (sym e) in
    (
      l.0,
      write_node-elsewhere h p.0 c.0 (node_of p (start ys end')) apart
          ∙ l.1
          ∙ ap (λ x. some (node_of c x)) (start-append pre p xs ys end end'),
      relink h pre p xs ys end end' l.2 d.1 n k,
    )

pub Linked-append :
    (h : Memory) (xs ys : List Cell) (end : ℕ) → Linked h (xs ++ ys) end → Linked h ys end
Linked-append h [] ys end l = l
Linked-append h (c ∷ xs) ys end l = Linked-append h xs ys end l.2

pub Distinct-parts :
    (b : List Cell) (c : Cell) (a : List Cell)
    → Distinct (b ++ c ∷ a)
    → Absent c.0 (b ++ a) × Distinct (b ++ a)
Distinct-parts [] c a d = d
Distinct-parts (x ∷ b) c a d =
    let k = Distinct-parts b c a d.1 in
    let (f, m, s) = All-parts (λ k. k.0 ≢ x.0) b c a d.0 in
    ((λ e. m (sym e), k.0), (All-append (λ k. k.0 ≢ x.0) b a f s, k.1))

pub Distinct-behind :
    (b : List Cell) (c : Cell) (a : List Cell) → Distinct (b ++ c ∷ a) → Distinct (c ∷ a)
Distinct-behind [] c a d = d
Distinct-behind (x ∷ b) c a d = Distinct-behind b c a d.1

pub Distinct-insert :
    (b : List Cell) (c : Cell) (a : List Cell)
    → Distinct (b ++ a)
    → Absent c.0 (b ++ a)
    → Distinct (b ++ c ∷ a)
Distinct-insert [] c a d n = (n, d)
Distinct-insert (x ∷ b) c a d n = (All-insert b a d.0, Distinct-insert b c a d.1 n.1)
  where
    All-insert : (b a : List Cell) → Absent x.0 (b ++ a) → Absent x.0 (b ++ c ∷ a)
    All-insert [] a k = (λ e. n.0 (sym e), k)
    All-insert (y ∷ b) a k = (k.0, All-insert b a k.1)

pub last_of-append :
    (prev : ℕ) (b : List Cell) (a : List Cell) → last_of prev (b ++ a) ≡ last_of (last_of prev b) a
last_of-append prev [] a = refl
last_of-append prev (c ∷ b) a = last_of-append c.0 b a

pub last_of-Absent : (prev a : ℕ) (cs : List Cell) → prev ≢ a → Absent a cs → last_of prev cs ≢ a
last_of-Absent prev a [] d n = d
last_of-Absent prev a (c ∷ cs) d n = last_of-Absent c.0 a cs n.0 n.1

-- A sequence is empty or has a last cell.
pub last_cell :
    (cs : List Cell) → (cs ≡ []) ⊎ ((pre : List Cell) × (p : Cell) × (cs ≡ pre ++ p ∷ []))
last_cell [] = inl refl
last_cell (c ∷ cs) = elim (last_cell cs) [
  | inl e ↦ inr ([], c, ap (λ l. c ∷ l) e)
  | inr (pre, p, e) ↦ inr (c ∷ pre, p, ap (λ l. c ∷ l) e)
]

pub walk_lem :
    (h : Memory) (b : List Cell) (c : Cell) (a : List Cell) (prev end : ℕ)
    → Linked h (b ++ c ∷ a) end
    → walk (length b) h prev (start (b ++ c ∷ a) end) ≡ some (last_of prev b, c.0)
unfolding walk
walk_lem h [] c a prev end l = refl
walk_lem h (x ∷ b) c a prev end l = rw l.1 (walk_lem h b c a x.0 end l.2)
