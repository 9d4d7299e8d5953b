-- ===== src/LinkedList/Tests.antt =====
-- Runs of the list, and the properties at a list of three items.
use atom_os.Prelude.{
  ◌≡◌, ◌⊎◌, refl, true, false, none, some, List, [], ◌∷◌, ◌++◌, arith, ◌==◌, if◌then◌else◌,
}
use atom_os.LinkedList.{
  LinkedList, Memory, list_add, walk, list_remove_at, list_remove, list_get_at, list_insert_at,
}
use atom_os.LinkedList.Chain.{Cell}
use atom_os.LinkedList.Laws.{IsList, list_remove_at_lem}
use atom_os.LinkedList.Sequence.{list_add_lem, list_insert_at_lem}
use atom_os.LinkedList.Removal.{Lacks, list_remove_lem}

-- Nodes at 16, 48 and 32, with the items 7, 8 and 7.
abbrev memory : Memory
memory a =
    if a == 16
    then some (record { datum = 7; next = 48 })
    else if a == 48
    then some (record { datum = 8; next = 32 })
    else if a == 32
    then some (record { datum = 7; next = 0 })
    else none

abbrev three : LinkedList
three = record { head = 16; tail = 32; count = 3 }

abbrev cells : List Cell
cells = (16, 7) ∷ (48, 8) ∷ (32, 7) ∷ []

three-IsList : IsList three memory cells
three-IsList = record {
  heads = refl;
  tails = refl;
  counts = refl;
  linked = (omega arith, refl, (omega arith, refl, (omega arith, refl, tt)));
  distinct = ((omega arith, (omega arith, tt)), ((omega arith, tt), (tt, tt)));
}

list_add_lem_example :
    (l : LinkedList) × (h : Memory) × (list_add 64 9 three memory ≡ some (l, h))
    × IsList l h (cells ++ (64, 9) ∷ [])
list_add_lem_example =
    list_add_lem three memory 64 9 (omega arith) cells (omega arith)
      (omega arith, (omega arith, (omega arith, tt))) three-IsList

list_insert_at_lem_example :
    (l : LinkedList) × (h : Memory) × (list_insert_at 64 1 9 three memory ≡ some (true, l, h))
    × IsList l h ((16, 7) ∷ (64, 9) ∷ (48, 8) ∷ (32, 7) ∷ [])
list_insert_at_lem_example =
    list_insert_at_lem three memory 64 9 (omega arith) ((16, 7) ∷ []) ((48, 8) ∷ (32, 7) ∷ [])
      (omega arith) (omega arith, (omega arith, (omega arith, tt))) three-IsList

list_remove_at_lem_example :
    (l : LinkedList) × (h : Memory) × (list_get_at 2 three memory ≡ some (some 7))
    × (list_remove_at 2 three memory ≡ some (true, l, h))
    × IsList l h ((16, 7) ∷ (48, 8) ∷ [])
    × (h 32 ≡ none)
list_remove_at_lem_example =
    list_remove_at_lem three memory ((16, 7) ∷ (48, 8) ∷ []) (32, 7) [] (omega arith) three-IsList

list_remove_lem_example :
    (Lacks 8 cells × (list_remove 8 three memory ≡ some (false, three, memory)))
    ⊎ ((b : List Cell) × (c : Cell) × (a : List Cell) × (l : LinkedList) × (h : Memory) × (cells
          ≡ b ++ c ∷ a)
        × Lacks 8 b
        × (c.1 ≡ 8)
        × (list_remove 8 three memory ≡ some (true, l, h))
        × IsList l h (b ++ a)
        × (h c.0 ≡ none))
list_remove_lem_example = list_remove_lem three memory 8 cells (omega arith) three-IsList

-- The item at the second place.
second : list_get_at 1 three memory ≡ some (some 8)
unfolding list_get_at walk
second = refl
