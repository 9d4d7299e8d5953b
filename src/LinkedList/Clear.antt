-- ===== src/LinkedList/Clear.antt =====
-- `List_Clear` of kernel/list.c.
use atom_os.Prelude.{
  ℕ, zero, suc, ◌≡◌, ◌<◌, ◌∙◌, ap, sym, refl, false, none, some, List, [], ◌∷◌, arith, ◌==◌, length,
  All,
}
use atom_os.LinkedList.{LinkedList, Memory, free_node, list_init, clear_loop, list_clear}
use atom_os.LinkedList.Chain.{
  Cell, start, Linked, Absent, Distinct, free_node-here, free_node-elsewhere, Linked-frame,
}
use atom_os.LinkedList.Laws.{IsList}

-- Memory after the loop: the nodes are freed, and nothing else.
abbrev Cleared : ℕ → Memory → List Cell → Type 0
Cleared fuel h cs =
    (h' : Memory) × (clear_loop fuel h (start cs 0) ≡ some h')
    × All (λ c. h' c.0 ≡ none) cs
    × ((x : ℕ) → Absent x cs → h' x ≡ h x)

clear_loop-Cleared :
    (cs : List Cell) (h : Memory) (fuel : ℕ)
    → Linked h cs 0
    → Distinct cs
    → length cs < fuel
    → Cleared fuel h cs
unfolding clear_loop
clear_loop-Cleared cs h zero l d n = absurd (omega arith)
clear_loop-Cleared [] h (suc fuel) l d n = (h, refl, tt, λ x a. refl)
clear_loop-Cleared (c ∷ cs) h (suc fuel) l d n =
    let t : (c.0 == 0) ≡ false = ground (arith, l.0) in
    let (h', e, f, same) =
      clear_loop-Cleared cs (free_node h c.0) fuel
        (Linked-frame c.0 h (free_node h c.0) cs 0 (free_node-elsewhere h c.0) d.0 l.2) d.1
        (omega arith) in
    (
      h',
      rw (clear_loop, t, l.1, e),
      (same c.0 d.0 ∙ free_node-here h c.0, f),
      λ x a. same x a.1 ∙ free_node-elsewhere h c.0 x (λ q. a.0 (sym q)),
    )

-- Where the list holds the cells of `cs`, `list_clear` ends with an empty list, and every node is freed.
pub list_clear_lem :
    (l : LinkedList) (h : Memory) (cs : List Cell)
    → IsList l h cs
    → (h' : Memory) × (list_clear l h ≡ some (list_init, h'))
      × IsList list_init h' []
      × All (λ c. h' c.0 ≡ none) cs
unfolding list_clear list_init
list_clear_lem l h cs i =
    let (h', e, f, same) =
      clear_loop-Cleared cs h (suc l.count) i.linked i.distinct (omega (arith, i.counts)) in
    let at_head : clear_loop (suc l.count) h l.head ≡ some h' =
      ap (λ x. clear_loop (suc l.count) h x) i.heads ∙ e in
    (
      h',
      rw (list_clear, at_head),
      record { heads = refl; tails = refl; counts = refl; linked = tt; distinct = tt },
      f,
    )
