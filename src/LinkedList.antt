-- ===== src/LinkedList.antt =====
-- kernel/list.c: the list of pointers, with its nodes in memory. A pointer is an address, NULL is 0, and
-- `none` in front of a result is a read or a write where no node is allocated. `self` is not NULL.
pub mod Chain
pub mod Laws
pub mod Inserts
pub mod Sequence
pub mod Removal
pub mod Clear
pub mod Tests
use atom_os.Prelude.{
  ℕ, zero, suc, ◌-◌, Bool, true, false, Option, none, some, ltb, leb, ◌==◌, if◌then◌else◌, add64,
  sub64,
}

pub record ListNode : Type 0 where
  pub datum : ℕ
  pub next : ℕ

pub record LinkedList : Type 0 where
  pub head : ℕ
  pub tail : ℕ
  pub count : ℕ

abbrev pub Memory : Type 0
Memory = ℕ → Option ListNode

unfoldable pub write_node : Memory → ℕ → ListNode → Memory
write_node h a n x = if x == a then some n else h x

unfoldable pub free_node : Memory → ℕ → Memory
free_node h a x = if x == a then none else h x

unfoldable pub list_init : LinkedList
list_init = record { head = 0; tail = 0; count = 0 }

-- `self->tail->next = node`.
unfoldable pub set_next : Memory → ℕ → ℕ → Option Memory
set_next h a next = elim (h a) [
  | none ↦ none
  | some n ↦ some (write_node h a (record n { next = next }))
]

-- `node` is what `malloc` answers.
unfoldable pub list_add : ℕ → ℕ → LinkedList → Memory → Option (LinkedList × Memory)
list_add node item l h =
    if node == 0
    then some (l, h)
    else if l.head == 0
    then some (
      record { head = node; tail = node; count = add64 l.count 1 },
      write_node h node (record { datum = item; next = 0 }),
    )
    else elim (set_next (write_node h node (record { datum = item; next = 0 })) l.tail node) [
      | none ↦ none
      | some h' ↦ some (record l { tail = node; count = add64 l.count 1 }, h')
    ]

-- The loop of `List_RemoveAt`: `prev` and `cur` after the rounds that are left.
unfoldable pub walk : ℕ → Memory → ℕ → ℕ → Option (ℕ × ℕ)
walk zero h prev cur = some (prev, cur)
walk (suc i) h prev cur = elim (h cur) [ none ↦ none | some n ↦ walk i h cur n.next ]

-- The removal of `cur`, behind `prev`.
unfoldable pub unlink : ℕ → ℕ → LinkedList → Memory → Option (LinkedList × Memory)
unlink prev cur l h = elim (h cur) [
  | none ↦ none
  | some c ↦
      if prev == 0
      then some (
        record {
          head = c.next;
          tail = if l.tail == cur then c.next else l.tail;
          count = sub64 l.count 1;
        },
        free_node h cur,
      )
      else elim (set_next h prev c.next) [
        | none ↦ none
        | some h' ↦ some (
          record l { tail = if l.tail == cur then prev else l.tail; count = sub64 l.count 1 },
          free_node h' cur,
        )
      ]
]

abbrev pub answering_true : Option (LinkedList × Memory) → Option (Bool × LinkedList × Memory)
answering_true none = none
answering_true (some (l, h)) = some (true, l, h)

unfoldable pub list_remove_at : ℕ → LinkedList → Memory → Option (Bool × LinkedList × Memory)
list_remove_at index l h =
    if leb l.count index then some (false, l, h) else elim (walk index h 0 l.head) [
      | none ↦ none
      | some (prev, cur) ↦ answering_true (unlink prev cur l h)
    ]

-- The loop of `List_Remove`, with a round for each node and one more; it answers `prev` and `cur`.
unfoldable pub search_loop : ℕ → Memory → ℕ → ℕ → ℕ → Option (Option (ℕ × ℕ))
search_loop zero h item prev cur = none
search_loop (suc fuel) h item prev cur = elim (cur == 0) [
  | true ↦ some none
  | false ↦ elim (h cur) [
    | none ↦ none
    | some n ↦ elim (n.datum == item) [
      | true ↦ some (some (prev, cur))
      | false ↦ search_loop fuel h item cur n.next
    ]
  ]
]

unfoldable pub list_remove : ℕ → LinkedList → Memory → Option (Bool × LinkedList × Memory)
list_remove item l h = elim (search_loop (suc l.count) h item 0 l.head) [
  | none ↦ none
  | some none ↦ some (false, l, h)
  | some (some (prev, cur)) ↦ answering_true (unlink prev cur l h)
]

-- The datum of the node at `index`; NULL, the inner `none`, where there is no such node.
unfoldable pub list_get_at : ℕ → LinkedList → Memory → Option (Option ℕ)
list_get_at index l h = if leb l.count index then some none else elim (walk index h 0 l.head) [
  | none ↦ none
  | some (prev, cur) ↦
      if cur == 0 then some none else elim (h cur) [ none ↦ none | some n ↦ some (some n.datum) ]
]

-- `List_InsertAt` behind a node, `prev`, that is found.
unfoldable pub link_behind : ℕ → ℕ → ℕ → LinkedList → Memory → Option (Bool × LinkedList × Memory)
link_behind prev node item l h = elim (h prev) [
  | none ↦ none
  | some p ↦ some (
    true,
    record l { tail = if p.next == 0 then node else l.tail; count = add64 l.count 1 },
    write_node (write_node h node (record { datum = item; next = p.next })) prev
        (record p { next = node }),
  )
]

-- The loop runs to the node before the place, `index - 1` rounds from the head.
unfoldable pub list_insert_at :
    ℕ → ℕ → ℕ → LinkedList → Memory → Option (Bool × LinkedList × Memory)
list_insert_at node index item l h =
    if ltb l.count index
    then some (false, l, h)
    else if index == l.count
    then answering_true (list_add node item l h)
    else if node == 0
    then some (false, l, h)
    else if index == 0
    then some (
      true,
      record { head = node; tail = if l.tail == 0 then node else l.tail; count = add64 l.count 1 },
      write_node h node (record { datum = item; next = l.head }),
    )
    else elim (walk (index - 1) h 0 l.head) [
      | none ↦ none
      | some (before, prev) ↦ link_behind prev node item l h
    ]

-- The loop of `List_IndexOf`; `none` inside stands for -1.
unfoldable index_loop : ℕ → Memory → ℕ → ℕ → ℕ → Option (Option ℕ)
index_loop zero h item cur idx = none
index_loop (suc fuel) h item cur idx = elim (cur == 0) [
  | true ↦ some none
  | false ↦ elim (h cur) [
    | none ↦ none
    | some n ↦ elim (n.datum == item) [
      | true ↦ some (some idx)
      | false ↦ index_loop fuel h item n.next (suc idx)
    ]
  ]
]

unfoldable list_index_of : ℕ → LinkedList → Memory → Option (Option ℕ)
list_index_of item l h = index_loop (suc l.count) h item l.head 0

-- The loop of `List_Clear`, for items that are not to be freed.
unfoldable pub clear_loop : ℕ → Memory → ℕ → Option Memory
clear_loop zero h cur = none
clear_loop (suc fuel) h cur = elim (cur == 0) [
  | true ↦ some h
  | false ↦ elim (h cur) [ none ↦ none | some n ↦ clear_loop fuel (free_node h cur) n.next ]
]

unfoldable pub list_clear : LinkedList → Memory → Option (LinkedList × Memory)
list_clear l h = elim (clear_loop (suc l.count) h l.head) [
  | none ↦ none
  | some h' ↦ some (list_init, h')
]
