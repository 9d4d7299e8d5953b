-- ===== src/LinkedList/Removal.antt =====
-- `List_Remove` of kernel/list.c on the whole sequence of items.
use atom_os.Prelude.{
  ℕ, zero, suc, ◌≡◌, ◌≢◌, ◌⊎◌, ◌<◌, ◌∙◌, ap, subst, refl, true, false, Option, none, some, List, [],
  ◌∷◌, ◌++◌, arith, ◌==◌, length, word, Bool-cases, inl, inr, All,
}
use atom_os.LinkedList.{LinkedList, Memory, search_loop, list_remove}
use atom_os.LinkedList.Chain.{Cell, start, last_of, Linked}
use atom_os.LinkedList.Laws.{IsList, unlink-Unlinked}

-- No cell has the item.
abbrev pub Lacks : ℕ → List Cell → Type 0
Lacks item cs = All (λ c. c.1 ≢ item) cs

-- What the search answers for the cells: that there is none, or the first with the item.
abbrev Searched : ℕ → ℕ → List Cell → Option (Option (ℕ × ℕ)) → Type 0
Searched item prev cs r =
    (Lacks item cs × (r ≡ some none))
    ⊎ ((b : List Cell) × (c : Cell) × (a : List Cell) × (cs ≡ b ++ c ∷ a)
        × Lacks item b
        × (c.1 ≡ item)
        × (r ≡ some (some (last_of prev b, c.0))))

behind :
    (item prev : ℕ) (c : Cell) (cs : List Cell) (r : Option (Option (ℕ × ℕ)))
    → c.1 ≢ item
    → Searched item c.0 cs r
    → Searched item prev (c ∷ cs) r
behind item prev c cs r n (inl (k, e)) = inl ((n, k), e)
behind item prev c cs r n (inr (b, d, a, s, k, m, e)) =
    inr (c ∷ b, d, a, ap (λ x. c ∷ x) s, (n, k), m, e)

search_loop-Searched :
    (h : Memory) (item : ℕ) (cs : List Cell) (fuel prev : ℕ)
    → Linked h cs 0
    → length cs < fuel
    → Searched item prev cs (search_loop fuel h item prev (start cs 0))
unfolding search_loop
search_loop-Searched h item cs zero prev l n = absurd (omega arith)
search_loop-Searched h item [] (suc fuel) prev l n = inl (tt, refl)
search_loop-Searched h item (c ∷ cs) (suc fuel) prev l n =
    let t : (c.0 == 0) ≡ false = ground (arith, l.0) in
    elim (Bool-cases (c.1 == item)) [
      | inl e ↦ inr ([], c, cs, refl, tt, ground (arith, e), rw (search_loop, t, l.1, e))
      | inr e ↦
          behind item prev c cs (search_loop (suc fuel) h item prev c.0) (ground (arith, e)) (
            rw (search_loop, t, l.1, e) (search_loop-Searched h item cs fuel c.0 l.2 (omega arith)))
    ]

-- Where the list holds fewer than 2^64 cells, `list_remove` ends: with false and the list as it was where
-- no cell has the item, else with true and a list that has lost the first cell that has it, whose node is
-- freed.
pub list_remove_lem :
    (l : LinkedList) (h : Memory) (item : ℕ) (cs : List Cell)
    → length cs < word
    → IsList l h cs
    → (Lacks item cs × (list_remove item l h ≡ some (false, l, h)))
      ⊎ ((b : List Cell) × (c : Cell) × (a : List Cell) × (l' : LinkedList) × (h' : Memory) × (cs
            ≡ b ++ c ∷ a)
          × Lacks item b
          × (c.1 ≡ item)
          × (list_remove item l h ≡ some (true, l', h'))
          × IsList l' h' (b ++ a)
          × (h' c.0 ≡ none))
unfolding list_remove
list_remove_lem l h item cs n i =
    elim (search_loop-Searched h item cs (suc l.count) 0 i.linked (omega (arith, i.counts))) [
      | inl (k, e) ↦ inl (k, rw (list_remove, at_head i.heads ∙ e))
      | inr (b, c, a, s, k, m, e) ↦
          let (l', h', u, j, f) =
            unlink-Unlinked l h b c a (omega (arith, ap length s)) (subst (IsList l h) s i) in
          inr (b, c, a, l', h', s, k, m, rw (list_remove, at_head i.heads ∙ e, u), j, f)
    ]
  where
    at_head :
        l.head ≡ start cs 0
        → search_loop (suc l.count) h item 0 l.head
          ≡ search_loop (suc l.count) h item 0 (start cs 0)
    at_head e = ap (λ x. search_loop (suc l.count) h item 0 x) e
