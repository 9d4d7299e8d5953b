-- ===== src/Tasks/Tests.antt =====
-- Runs of tasks and events, and the properties at concrete schedules.
use atom_os.Prelude.{ℕ, ◌+◌, ◌≡◌, refl, true, none, some, List, [], ◌∷◌, ◌++◌, arith}
use atom_os.Tasks.{
  PeriodicTask, call_function, periodic_task_start, due, settled, run_task, periodic_task_run_all,
  run_at,
}
use atom_os.Tasks.Rate.{Schedule, IsQuiet, IsCounted, AtRate, run_at-AtRate}
use atom_os.Tasks.Events.{event_invoke, call_all, event_register_callback, Event}

-- A task without a function, and one that counts its runs, every five milliseconds, last at 100.
abbrev idle_task : PeriodicTask ℕ
idle_task = record {
  address = 1;
  task_function = none;
  arg = 0;
  interval_ms = 1;
  last_run_ms = 90;
  running = true;
}

abbrev counting : PeriodicTask ℕ
counting = record {
  address = 2;
  task_function = some (λ address arg s. s + 1);
  arg = 0;
  interval_ms = 5;
  last_run_ms = 100;
  running = true;
}

abbrev times : List ℕ
times = 102 ∷ 106 ∷ 110 ∷ 112 ∷ []

-- It runs at 106 and at 112.
two_runs : (run_at times (idle_task ∷ counting ∷ []) 0).1 ≡ 2
unfolding run_at periodic_task_run_all run_task call_function settled due
two_runs = refl

-- A task that has just been started waits until its interval has passed since 0.
waits : (periodic_task_run_all 4 (periodic_task_start counting ∷ []) 0).1 ≡ 0
unfolding periodic_task_run_all run_task due periodic_task_start
waits = refl

idle_task-IsQuiet : IsQuiet (λ s. s) idle_task
unfolding call_function
idle_task-IsQuiet s = refl

counting-IsCounted : IsCounted (λ s. s) counting
unfolding call_function
counting-IsCounted s = refl

late : Schedule 4 110 (112 ∷ [])
late = (omega arith, omega arith, omega arith, tt)

times-Schedule : Schedule 4 101 times
times-Schedule = (
  omega arith,
  omega arith,
  omega arith,
  (omega arith, omega arith, omega arith, (omega arith, omega arith, omega arith, late)),
)

run_at-AtRate_example :
    (n : ℕ) × ((run_at times ((idle_task ∷ []) ++ counting ∷ []) 0).1 ≡ 0 + n)
    × AtRate 5 4 100 112 n
run_at-AtRate_example =
    run_at-AtRate (λ s. s) 4 times 101 (idle_task ∷ []) counting [] 0 (idle_task-IsQuiet, tt) tt
      counting-IsCounted refl (omega arith) (omega arith) (omega arith) times-Schedule

abbrev keyboard_event : Event
keyboard_event = record {
  invoke_count = 3;
  enabled = true;
  last_invoke_time = 0;
  callbacks = some (7 ∷ 8 ∷ []);
}

-- Each callback adds its address and the context.
abbrev adding : ℕ → ℕ → ℕ → ℕ
adding callback context s = s + callback + context

-- The callback that has been registered runs last.
registered :
    event_invoke adding 1 (event_register_callback true 9 keyboard_event) 0
    ≡ some (
      record {
        invoke_count = 4;
        enabled = true;
        last_invoke_time = 0;
        callbacks = some (7 ∷ 8 ∷ 9 ∷ []);
      },
      27,
    )
unfolding event_invoke call_all event_register_callback
registered = refl
