-- ===== src/Tasks/Rate.antt =====
-- How often `periodic_task_run_all` calls a task.
use native.Mathlib.Nat.{add-mul}
use atom_os.Prelude.{
  ℕ, ◌+◌, ◌*◌, ◌≡◌, ◌≤◌, ◌<◌, ◌∙◌, ap, subst, refl, true, false, List, [], ◌∷◌, ◌++◌, arith,
  if◌then◌else◌, word, Bool-cases, inl, inr, All,
}
use atom_os.Tasks.{
  PeriodicTask, due, call_function, settled, run_task, periodic_task_run_all, run_at,
}

-- The times of the calls: none before the one before, and none more than `gap` after it.
abbrev pub Schedule : ℕ → ℕ → List ℕ → Type 0
Schedule gap last [] = Unit
Schedule gap last (now ∷ times) =
    (last ≤ now) × (now ≤ last + gap) × (now < word) × Schedule gap now times

-- The time of the last call.
abbrev pub end_of : ℕ → List ℕ → ℕ
end_of last [] = last
end_of last (now ∷ times) = end_of now times

module _ {S : Type 0} (calls : S → ℕ) where
  -- The function of the task does not count as a call.
  abbrev pub IsQuiet : PeriodicTask S → Type 0
  IsQuiet task = (s : S) → calls (call_function task s) ≡ calls s

  -- It counts as one.
  abbrev pub IsCounted : PeriodicTask S → Type 0
  IsCounted task = (s : S) → calls (call_function task s) ≡ calls s + 1

  settled-IsQuiet : (now : ℕ) (task : PeriodicTask S) → IsQuiet task → IsQuiet (settled now task)
  unfolding settled call_function
  settled-IsQuiet now task q = elim (Bool-cases (due now task)) [ inl t ↦ rw t q | inr t ↦ rw t q ]

  uncounted :
      (now : ℕ) (task : PeriodicTask S) (s : S)
      → IsQuiet task
      → calls (run_task now task s) ≡ calls s
  unfolding run_task
  uncounted now task s q = elim (Bool-cases (due now task)) [ inl t ↦ rw t (q s) | inr t ↦ rw t ]

  periodic_task_run_all-IsQuiet :
      (now : ℕ) (tasks : List (PeriodicTask S)) (s : S)
      → All IsQuiet tasks
      → (calls (periodic_task_run_all now tasks s).1 ≡ calls s)
        × All IsQuiet (periodic_task_run_all now tasks s).0
  unfolding periodic_task_run_all
  periodic_task_run_all-IsQuiet now [] s h = (refl, tt)
  periodic_task_run_all-IsQuiet now (task ∷ tasks) s h =
      let (e, k) = periodic_task_run_all-IsQuiet now tasks (run_task now task s) h.1 in
      (e ∙ uncounted now task s h.0, (settled-IsQuiet now task h.0, k))

  settled-IsCounted :
      (now : ℕ) (task : PeriodicTask S) → IsCounted task → IsCounted (settled now task)
  unfolding settled call_function
  settled-IsCounted now task q = elim (Bool-cases (due now task)) [
    | inl t ↦ rw t q
    | inr t ↦ rw t q
  ]

  counted :
      (now : ℕ) (task : PeriodicTask S) (s : S)
      → IsCounted task
      → calls (run_task now task s) ≡ calls s + (if due now task then 1 else 0)
  unfolding run_task
  counted now task s q = elim (Bool-cases (due now task)) [
    | inl t ↦ rw t (q s)
    | inr t ↦ rw t (omega arith)
  ]

  -- One call of `periodic_task_run_all`, for a task between others that are quiet.
  abbrev Round : ℕ → PeriodicTask S → S → List (PeriodicTask S) × S → Type 0
  Round now task s (tasks, s') =
      (before : List (PeriodicTask S)) × (after : List (PeriodicTask S)) × (tasks
        ≡ before ++ settled now task ∷ after)
      × All IsQuiet before
      × All IsQuiet after
      × (calls s' ≡ calls s + (if due now task then 1 else 0))

  round :
      (now : ℕ) (before : List (PeriodicTask S)) (task : PeriodicTask S)
      (after : List (PeriodicTask S)) (s : S)
      → All IsQuiet before
      → All IsQuiet after
      → IsCounted task
      → Round now task s (periodic_task_run_all now (before ++ task ∷ after) s)
  unfolding periodic_task_run_all
  round now [] task after s hb ha c =
      let (e, k) = periodic_task_run_all-IsQuiet now after (run_task now task s) ha in
      (
        [],
        (periodic_task_run_all now after (run_task now task s)).0,
        refl,
        tt,
        k,
        e ∙ counted now task s c,
      )
  round now (t ∷ before) task after s hb ha c =
      let (b, a, e, kb, ka, n) = round now before task after (run_task now t s) hb.1 ha c in
      (
        settled now t ∷ b,
        a,
        ap (λ l. settled now t ∷ l) e,
        (settled-IsQuiet now t hb.0, kb),
        ka,
        n ∙ ap (λ x. x + (if due now task then 1 else 0)) (uncounted now t s hb.0),
      )

settled-due :
    {S : Type 0} (now : ℕ) (task : PeriodicTask S)
    → due now task ≡ true
    → settled now task ≡ record task { last_run_ms = now }
unfolding settled
settled-due now task t = rw t

settled-idle :
    {S : Type 0} (now : ℕ) (task : PeriodicTask S) → due now task ≡ false → settled now task ≡ task
unfolding settled
settled-idle now task t = rw t

-- Whether the task is due, as a comparison of times.
due-true :
    {S : Type 0} (now : ℕ) (task : PeriodicTask S)
    → task.last_run_ms ≤ now
    → now < word
    → due now task ≡ true
    → task.last_run_ms + task.interval_ms ≤ now
unfolding due
due-true now task l w t = ground (arith, t)

due-false :
    {S : Type 0} (now : ℕ) (task : PeriodicTask S)
    → task.running ≡ true
    → task.last_run_ms ≤ now
    → now < word
    → due now task ≡ false
    → now < task.last_run_ms + task.interval_ms
unfolding due
due-false now task r l w t = ground (arith, r, t)

-- `n` calls between `start` and `end`, for a task with the interval `v` when a call may come `gap` late.
abbrev pub AtRate : ℕ → ℕ → ℕ → ℕ → ℕ → Type 0
AtRate v gap start end n = (start + n * v ≤ end) × (end < start + (n + 1) * (v + gap))

one_more :
    (v gap start now end n : ℕ)
    → start + v ≤ now
    → now < start + v + gap
    → AtRate v gap now end n
    → AtRate v gap start end (n + 1)
one_more v gap start now end n a b r =
    (omega (arith, r.0, add-mul n 1 v), omega (arith, r.1, add-mul (n + 1) 1 (v + gap)))

module _ {S : Type 0} (calls : S → ℕ) (gap : ℕ) where
  -- Let one running task have a positive interval and not be due at the time `last`, let its function add
  -- one to a count, and let no function of the other tasks change that count. If `periodic_task_run_all` is
  -- called from `last` on, never more than `gap` apart, the count grows by a number `n` of calls such that
  -- `n` intervals fit between the run before the first of these calls and the last of them, and `n + 1` times
  -- the interval and the gap do not.
  pub run_at-AtRate :
      (times : List ℕ) (last : ℕ) (before : List (PeriodicTask S)) (task : PeriodicTask S)
      (after : List (PeriodicTask S)) (s : S)
      → All (IsQuiet calls) before
      → All (IsQuiet calls) after
      → IsCounted calls task
      → task.running ≡ true
      → 0 < task.interval_ms
      → task.last_run_ms ≤ last
      → last < task.last_run_ms + task.interval_ms
      → Schedule gap last times
      → (n : ℕ) × (calls (run_at times (before ++ task ∷ after) s).1 ≡ calls s + n)
        × AtRate task.interval_ms gap task.last_run_ms (end_of last times) n
  unfolding run_at
  run_at-AtRate [] last before task after s hb ha c r p l m h =
      (0, omega arith, (omega arith, omega arith))
  run_at-AtRate (now ∷ times) last before task after s hb ha c r p l m h =
      let (b, a, e, kb, ka, n) = round calls now before task after s hb ha c in
      let s' : S = (periodic_task_run_all now (before ++ task ∷ after) s).1 in
      elim (Bool-cases (due now task)) [
        | inl t ↦
            let d = due-true now task (omega (arith, h.0)) h.2 t in
            let (k, ran, rate) =
              run_at-AtRate times now b (record task { last_run_ms = now }) a s' kb ka
                (subst (IsCounted calls) (settled-due now task t)
                  (settled-IsCounted calls now task c))
                r p (omega arith) (omega arith) h.3 in
            (
              k + 1,
              ap (λ l. calls (run_at times l s').1)
                    (e ∙ ap (λ x. b ++ x ∷ a) (settled-due now task t))
                  ∙ ran
                  ∙ total k (if due now task then 1 else 0) s' n (rw t refl),
              one_more task.interval_ms gap task.last_run_ms now (end_of now times) k d
                  (omega (arith, h.1)) rate,
            )
        | inr t ↦
            let d = due-false now task r (omega (arith, h.0)) h.2 t in
            let (k, ran, rate) =
              run_at-AtRate times now b task a s' kb ka c r p (omega (arith, h.0)) d h.3 in
            (
              k,
              ap (λ l. calls (run_at times l s').1)
                    (e ∙ ap (λ x. b ++ x ∷ a) (settled-idle now task t))
                  ∙ ran
                  ∙ same k (if due now task then 1 else 0) s' n (rw t refl),
              rate,
            )
      ]
    where
      total :
          (k one : ℕ) (s' : S)
          → calls s' ≡ calls s + one
          → one ≡ 1
          → calls s' + k ≡ calls s + (k + 1)
      total k one s' n o = omega arith

      same : (k one : ℕ) (s' : S) → calls s' ≡ calls s + one → one ≡ 0 → calls s' + k ≡ calls s + k
      same k one s' n o = omega arith
