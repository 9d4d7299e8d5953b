-- ===== src/Tasks/Events.antt =====
-- kernel/event/event.c. A callback is known by its address, and `call` says what it does with the context.
use atom_os.Prelude.{
  ℕ, ◌≡◌, ◌≢◌, Bool, true, false, not, Option, none, some, List, [], ◌∷◌, ◌++◌, arith, ◌==◌,
  if◌then◌else◌, add64,
}

-- `callbacks` is `none` where `List_Create` got no memory.
pub record Event : Type 0 where
  pub invoke_count : ℕ
  pub enabled : Bool
  pub last_invoke_time : ℕ
  pub callbacks : Option (List ℕ)

-- The flags are the allocations of the event and of the list.
unfoldable pub event_create : Bool → Bool → Option Event
event_create granted list =
    if granted
    then some (record {
      invoke_count = 0;
      enabled = true;
      last_invoke_time = 0;
      callbacks = if list then some [] else none;
    })
    else none

abbrev pub with_node : Bool → ℕ → Option (List ℕ) → Option (List ℕ)
with_node node callback none = none
with_node node callback (some list) = some (if node then list ++ callback ∷ [] else list)

-- `node` is the allocation in `List_Add`.
unfoldable pub event_register_callback : Bool → ℕ → Event → Event
event_register_callback node callback event =
    if callback == 0
    then event
    else record event { callbacks = with_node node callback event.callbacks }

abbrev pub without : ℕ → List ℕ → List ℕ
without callback [] = []
without callback (c ∷ list) =
    let rest = without callback list in if c == callback then list else c ∷ rest

abbrev pub without_node : ℕ → Option (List ℕ) → Option (List ℕ)
without_node callback none = none
without_node callback (some list) = some (without callback list)

unfoldable pub event_unregister_callback : ℕ → Event → Event
event_unregister_callback callback event =
    if callback == 0
    then event
    else record event { callbacks = without_node callback event.callbacks }

module _ {S : Type 0} (call : ℕ → ℕ → S → S) where
  -- The loop of `event_invoke`.
  unfoldable pub call_all : ℕ → List ℕ → S → S
  call_all context [] s = s
  call_all context (c ∷ list) s = call_all context list (if c == 0 then s else call c context s)

  -- `none` is a read through NULL.
  unfoldable pub event_invoke : ℕ → Event → S → Option (Event × S)
  event_invoke context event s =
      if not event.enabled then some (event, s) else elim event.callbacks [
        | none ↦ none
        | some list ↦ some (
          record event { invoke_count = add64 event.invoke_count 1; last_invoke_time = 0 },
          call_all context list s,
        )
      ]

  call_all-append :
      (context : ℕ) (list : List ℕ) (c : ℕ) (s : S)
      → c ≢ 0
      → call_all context (list ++ c ∷ []) s ≡ call c context (call_all context list s)
  unfolding call_all
  call_all-append context [] c s n = let t : (c == 0) ≡ false = ground arith in rw t
  call_all-append context (d ∷ list) c s n =
      call_all-append context list c (if d == 0 then s else call d context s) n

  -- An event that is enabled and has a list: when a callback has been registered, and the list got its node,
  -- `event_invoke` does what it did before, and then calls that callback.
  pub event_invoke-event_register_callback :
      (context callback : ℕ) (event : Event) (list : List ℕ) (s : S)
      → event.enabled ≡ true
      → event.callbacks ≡ some list
      → callback ≢ 0
      → (event' : Event) × (s' : S) × (event_invoke context event s ≡ some (event', s'))
        × (event_invoke context (event_register_callback true callback event) s
            ≡ some (event_register_callback true callback event', call callback context s'))
  unfolding event_invoke event_register_callback
  event_invoke-event_register_callback context callback event list s e l n =
      let t : (callback == 0) ≡ false = ground arith in
      (
        record event { invoke_count = add64 event.invoke_count 1; last_invoke_time = 0 },
        call_all context list s,
        simp (e, l),
        simp (e, l, t, call_all-append context list callback s n),
      )
