-- ===== src/Tasks.antt =====
-- kernel/task/PeriodicTask.c and kernel/event/event.c. What the functions of tasks and the callbacks
-- change is a type `S`; they do not change the list of tasks or the event that runs them. Names are left
-- out. A task or an event is not NULL, and a task is known by its address.
pub mod Rate
pub mod Events
pub mod Tests
use atom_os.Prelude.{
  ℕ, Bool, true, false, not, ◌&&◌, Option, none, some, List, [], ◌∷◌, ◌++◌, leb, ◌==◌,
  if◌then◌else◌, sub64,
}

pub record PeriodicTask (S : Type 0) : Type 0 where
  pub address : ℕ
  pub task_function : Option (ℕ → ℕ → S → S)
  pub arg : ℕ
  pub interval_ms : ℕ
  pub last_run_ms : ℕ
  pub running : Bool

module _ {S : Type 0} where
  -- The task that `periodic_task_create` fills in at `address`; `node` says whether `List_Add` gets its node.
  unfoldable pub periodic_task_create :
      Bool → ℕ → Option (ℕ → ℕ → S → S) → ℕ → ℕ → List (PeriodicTask S) → List (PeriodicTask S)
  periodic_task_create node address task_function arg interval_ms tasks =
      if node
      then tasks
        ++ record {
          address = address;
          task_function = task_function;
          arg = arg;
          interval_ms = interval_ms;
          last_run_ms = 0;
          running = false;
        }
          ∷ []
      else tasks

  unfoldable pub periodic_task_start : PeriodicTask S → PeriodicTask S
  periodic_task_start task = record task { running = true; last_run_ms = 0 }

  unfoldable pub periodic_task_stop : PeriodicTask S → PeriodicTask S
  periodic_task_stop task = record task { running = false }

  -- `List_Remove`: the first node with the address.
  unfoldable pub periodic_task_destroy : ℕ → List (PeriodicTask S) → List (PeriodicTask S)
  periodic_task_destroy address [] = []
  periodic_task_destroy address (task ∷ tasks) =
      let rest = periodic_task_destroy address tasks in
      if task.address == address then tasks else task ∷ rest

  -- The test of the loop of `periodic_task_run_all` at the time `now`.
  unfoldable pub due : ℕ → PeriodicTask S → Bool
  due now task = task.running && leb task.interval_ms (sub64 now task.last_run_ms)

  unfoldable pub call_function : PeriodicTask S → S → S
  call_function task s = elim task.task_function [ none ↦ s | some f ↦ f task.address task.arg s ]

  -- One round of the loop: what becomes of the task, and of the state.
  unfoldable pub settled : ℕ → PeriodicTask S → PeriodicTask S
  settled now task = if due now task then record task { last_run_ms = now } else task

  unfoldable pub run_task : ℕ → PeriodicTask S → S → S
  run_task now task s = if due now task then call_function task s else s

  unfoldable pub periodic_task_run_all : ℕ → List (PeriodicTask S) → S → List (PeriodicTask S) × S
  periodic_task_run_all now [] s = ([], s)
  periodic_task_run_all now (task ∷ tasks) s =
      let rest = periodic_task_run_all now tasks (run_task now task s) in
      (settled now task ∷ rest.0, rest.1)

  -- A call of `periodic_task_run_all` at each of the times.
  unfoldable pub run_at : List ℕ → List (PeriodicTask S) → S → List (PeriodicTask S) × S
  run_at [] tasks s = (tasks, s)
  run_at (now ∷ times) tasks s =
      let here = periodic_task_run_all now tasks s in run_at times here.0 here.1
