-- ===== src/Process/Tasks/Ending.antt =====
-- crates/nexal-agent/src/process/local.rs: the tasks of one process with the end of `watch_exit`,
-- which takes the entry out of the table after the retention time. Whatever section comes later
-- finds no process and does nothing. The id is not started again meanwhile.
use nexal.Prelude.{
  ℕ, ◌+◌, ◌≡◌, refl, ◌∙◌, ap, true, false, Bool, not, Option, none, some, is_some, List, [], ◌∷◌,
  ◌++◌, map, arith, string_eq, eq_self, Bool-cases, inl, inr,
}
use nexal.Prelude.Int.{ℤ, ℤ_eq}
use nexal.Prelude.Map
use nexal.Prelude.Map.{get-insert_self, get-remove}
use nexal.Process.Types.{ProcessId, RunningProcess, ProcessEvent, running}
use nexal.Process.Lifecycle.{Section, try_close, section, run_sections, spawned, cons_some}
use nexal.Process.Lifecycle.Closing.{
  closed_count, as_count, closed_count-section, closed_count-run, alive_after, closed-section,
  closes, streams_after, At-run,
}
use nexal.Process.Server.{Inner}
use nexal.Process.Tasks.{on_running, remove_exited, has_exited_with}
use nexal.Pty.Handle.{ProcessHandle}

-- A section of the tasks, or the last one of `watch_exit`
pub data TaskStep : Type 0 where
  doing : Section → TaskStep
  reaping : ℤ → TaskStep

unfoldable pub task_step : ProcessId → TaskStep → Inner → Inner × Option ProcessEvent
task_step id (doing s) inner = on_running inner id (section id s)
task_step id (reaping exit_code) inner = (remove_exited inner id exit_code, none)

-- The steps in the order in which they take the lock, with the events of the process
unfoldable pub run_tasks : ProcessId → List TaskStep → Inner → Inner × List ProcessEvent
unfolding task_step
run_tasks id [] inner = (inner, [])
run_tasks id (s ∷ steps) inner =
    let now = task_step id s inner in
    let rest = run_tasks id steps now.0 in (rest.0, cons_some now.1 rest.1)

module _ (id : ProcessId) where
  reaped : (inner : Inner) → Map.get (Map.remove inner.processes id) id ≡ none
  reaped inner = ground (arith, get-remove inner.processes id id, eq_self id)

  gone :
      (steps : List TaskStep) (inner : Inner)
      → Map.get inner.processes id ≡ none
      → (run_tasks id steps inner).1 ≡ []
  unfolding run_tasks on_running remove_exited has_exited_with
  gone [] inner e = refl
  gone (doing s ∷ steps) inner e = simp e (gone steps inner e)
  gone (reaping code ∷ steps) inner e = simp e (gone steps inner e)

  running-doing :
      (s : Section) (inner : Inner) (p : RunningProcess)
      → Map.get inner.processes id ≡ some (running p)
      → (Map.get (task_step id (doing s) inner).0.processes id ≡ some (running (section id s p).0))
        × ((task_step id (doing s) inner).1 ≡ (section id s p).1)
  unfolding task_step on_running
  running-doing s inner p e = simp e (get-insert_self inner.processes id _, refl)

  -- A closed process logs no `closed` event any more, whether or not it is reaped.
  closed-silent :
      (steps : List TaskStep) (inner : Inner) (p : RunningProcess)
      → Map.get inner.processes id ≡ some (running p)
      → p.closed ≡ true
      → closed_count (run_tasks id steps inner).1 ≡ 0
  unfolding run_tasks remove_exited
  closed-silent [] inner p e c = refl
  closed-silent (doing s ∷ steps) inner p e c =
      let now = running-doing s inner p e in
      let later =
        closed-silent steps (task_step id (doing s) inner).0 (section id s p).0 now.0
          (closed-section id s p c) in
      let rest = (run_tasks id steps (task_step id (doing s) inner).0).1 in
      ap (λ o. closed_count (cons_some o rest)) now.1
      ∙ omega (
        arith,
        closed_count-section id s p rest,
        later,
        ap as_count c,
        ap as_count (closed-section id s p c),
      )
  closed-silent (reaping code ∷ steps) inner p e c =
      elim (Bool-cases (has_exited_with code (Map.get inner.processes id))) [
        | inl yes' ↦ simp yes' (ap closed_count (gone steps _ (reaped inner)))
        | inr not' ↦ simp not' (closed-silent steps inner p e c)
      ]

  -- Sections come one by one.
  doing-count :
      (s : Section) (steps : List TaskStep) (inner : Inner) (p : RunningProcess) (n : ℕ)
      → Map.get inner.processes id ≡ some (running p)
      → closed_count (run_tasks id steps (task_step id (doing s) inner).0).1
          + as_count (section id s p).0.closed
        ≡ n
      → closed_count (run_tasks id (doing s ∷ steps) inner).1 + as_count p.closed ≡ n
  unfolding run_tasks
  doing-count s steps inner p n e h =
      let rest = (run_tasks id steps (task_step id (doing s) inner).0).1 in
      omega (
        arith,
        ap (λ o. closed_count (cons_some o rest)) (running-doing s inner p e).1,
        closed_count-section id s p rest,
        h,
      )

  closes-once :
      (before : List Section) (after : List TaskStep) (inner : Inner) (p : RunningProcess)
      → Map.get inner.processes id ≡ some (running p)
      → (run_sections id before p).0.open_streams ≡ 0
      → is_some (run_sections id before p).0.exit_code ≡ true
      → closed_count (run_tasks id (map doing before ++ doing try_close ∷ after) inner).1
          + as_count p.closed
        ≡ 1
  unfolding run_sections
  closes-once [] after inner p e streams exited =
      let done = closes id p streams exited in
      doing-count try_close after inner p 1 e (
        omega (
          arith,
          closed-silent after (task_step id (doing try_close) inner).0 (section id try_close p).0
              (running-doing try_close inner p e).0 done,
          ap as_count done,
        ))
  closes-once (s ∷ before) after inner p e streams exited =
      doing-count s (map doing before ++ doing try_close ∷ after) inner p 1 e (
        closes-once before after (task_step id (doing s) inner).0 (section id s p).0
          (running-doing s inner p e).0 streams exited)

  has_exited-exit :
      (code : ℤ) (p : RunningProcess)
      → p.exit_code ≡ some code
      → has_exited_with code (some (running p)) ≡ true
  unfolding has_exited_with
  has_exited-exit code p e = simp (e, eq_self code) refl

  reaped-frozen :
      (before : List Section) (code : ℤ) (after : List TaskStep) (inner : Inner)
      (p : RunningProcess)
      → Map.get inner.processes id ≡ some (running p)
      → (run_sections id before p).0.exit_code ≡ some code
      → closed_count (run_tasks id (map doing before ++ reaping code ∷ after) inner).1
          + as_count p.closed
        ≡ as_count (run_sections id before p).0.closed
  unfolding run_sections run_tasks remove_exited task_step
  reaped-frozen [] code after inner p e exited =
      let due : has_exited_with code (Map.get inner.processes id) ≡ true =
        ap (has_exited_with code) e ∙ has_exited-exit code p exited in
      simp due (omega (arith, ap closed_count (gone after _ (reaped inner))))
  reaped-frozen (s ∷ before) code after inner p e exited =
      doing-count s (map doing before ++ reaping code ∷ after) inner p _ e (
        reaped-frozen before code after (task_step id (doing s) inner).0 (section id s p).0
          (running-doing s inner p e).0 exited)

-- When both streams have finished and the child has exited, in whatever order, while the entry is in
-- the table, the next attempt closes the process: exactly one `closed` event is logged, whatever
-- comes behind it, the reaping too. When the entry of a process that has exited is reaped, no
-- `closed` event is logged any more, also when a stream that was open until then finishes.
pub closed_count-run_tasks :
    (id : ProcessId) (session : ProcessHandle) (tty : Bool) (inner : Inner)
    (before early : List Section) (after : List TaskStep) (exit_code : ℤ)
    → Map.get inner.processes id ≡ some (running (spawned session tty))
    → streams_after 2 before ≡ 0
    → alive_after true before ≡ false
    → (run_sections id early (spawned session tty)).0.exit_code ≡ some exit_code
    → (closed_count (run_tasks id (map doing before ++ doing try_close ∷ after) inner).1 ≡ 1)
      × (closed_count (run_tasks id (map doing early ++ reaping exit_code ∷ after) inner).1
          ≡ closed_count (run_sections id early (spawned session tty)).1)
unfolding spawned
closed_count-run_tasks id session tty inner before early after exit_code there streams exited seen =
    let p = spawned session tty in
    let at = At-run id before p 2 true (refl, refl) in
    (
      omega (
        arith,
        closes-once id before after inner p there (at.0 ∙ streams) (at.1 ∙ ap not exited),
      ),
      omega (
        arith,
        reaped-frozen id early exit_code after inner p there seen,
        closed_count-run id early p,
      ),
    )
