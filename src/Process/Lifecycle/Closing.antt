-- ===== src/Process/Lifecycle/Closing.antt =====
-- The `closed` event of a process and the sections of the tasks: how many of them log it, what they
-- leave open, and what comes behind it.
use nexal.Prelude.{
  ℕ, suc, ◌+◌, ◌-◌, ◌≤◌, ◌≡◌, refl, sym, ◌∙◌, subst, true, false, List, [], ◌∷◌, arith, Bool,
  is_some, Bool-cases, inl, inr, not,
}
use nexal.Process.Types.{ProcessId, RunningProcess, ProcessEvent, output_delta, exited, closed}
use nexal.Process.Output.{push_output}
use nexal.Process.Lifecycle.{
  Section, chunk, stream_finished, exit, try_close, section, stays_open, stays_open-false,
  run_sections, spawned, cons_some,
}
use nexal.Pty.Handle.{ProcessHandle}

abbrev pub closed_count : List ProcessEvent → ℕ
closed_count [] = 0
closed_count (output_delta id seq s c ∷ es) = closed_count es
closed_count (exited id seq c ∷ es) = closed_count es
closed_count (closed id seq ∷ es) = suc (closed_count es)

-- Nothing stands behind a `closed` event.
abbrev pub ClosedLast : List ProcessEvent → Type 0
ClosedLast [] = Unit {0}
ClosedLast (output_delta id seq s c ∷ es) = ClosedLast es
ClosedLast (exited id seq c ∷ es) = ClosedLast es
ClosedLast (closed id seq ∷ es) = es ≡ []

abbrev pub as_count : Bool → ℕ
as_count true = 1
as_count false = 0

-- What the three tasks may do: a stream that has ended delivers no chunk and does not end again,
-- and the child exits once. `streams` of them are open, and `alive` says that the exit is to come.
abbrev pub IsSchedule : ℕ → Bool → List Section → Type 0
IsSchedule streams alive [] = Unit {0}
IsSchedule streams alive (chunk s c ∷ ss) = (1 ≤ streams) × IsSchedule streams alive ss
IsSchedule streams alive (stream_finished ∷ ss) = (1 ≤ streams) × IsSchedule (streams - 1) alive ss
IsSchedule streams alive (exit c ∷ ss) = (alive ≡ true) × IsSchedule streams false ss
IsSchedule streams alive (try_close ∷ ss) = IsSchedule streams alive ss

-- The process agrees with the schedule.
abbrev pub At : ℕ → Bool → RunningProcess → Type 0
At streams alive p = (p.open_streams ≡ streams) × (is_some p.exit_code ≡ not alive)

pub closed_count-section :
    (id : ProcessId) (s : Section) (p : RunningProcess) (es : List ProcessEvent)
    → closed_count (cons_some (section id s p).1 es) + as_count p.closed
      ≡ closed_count es + as_count (section id s p).0.closed
unfolding section push_output
closed_count-section id (chunk s c) p es = refl
closed_count-section id stream_finished p es = refl
closed_count-section id (exit c) p es = refl
closed_count-section id try_close p es = ground arith

pub closed_count-run :
    (id : ProcessId) (ss : List Section) (p : RunningProcess)
    → closed_count (run_sections id ss p).1 + as_count p.closed
      ≡ as_count (run_sections id ss p).0.closed
unfolding run_sections
closed_count-run id [] p = omega arith
closed_count-run id (s ∷ ss) p = omega (
  arith,
  closed_count-run id ss (section id s p).0,
  closed_count-section id s p (run_sections id ss (section id s p).0).1,
)

-- After it, no section that the schedule allows logs anything.
silent :
    (id : ProcessId) (ss : List Section) (p : RunningProcess)
    → p.closed ≡ true
    → IsSchedule 0 false ss
    → (run_sections id ss p).1 ≡ []
unfolding run_sections
silent id [] p c h = refl
silent id (chunk s b ∷ ss) p c h = absurd (omega (arith, h.0))
silent id (stream_finished ∷ ss) p c h = absurd (omega (arith, h.0))
silent id (exit e ∷ ss) p c h = cc (h.0)
silent id (try_close ∷ ss) p c h = simp c (silent id ss p c h)

quiet_of :
    (streams : ℕ) (alive : Bool) (ss : List Section)
    → IsSchedule streams alive ss
    → streams ≡ 0
    → not alive ≡ true
    → IsSchedule 0 false ss
quiet_of streams true ss h e f = cc f
quiet_of streams false ss h e f = subst (λ n. IsSchedule n false ss) e h

ClosedLast-run :
    (id : ProcessId) (ss : List Section) (p : RunningProcess) (streams : ℕ) (alive : Bool)
    → At streams alive p
    → IsSchedule streams alive ss
    → ClosedLast (run_sections id ss p).1
unfolding run_sections push_output
ClosedLast-run id [] p streams alive a h = tt
ClosedLast-run id (chunk s c ∷ ss) p streams alive a h =
    ClosedLast-run id ss (section id (chunk s c) p).0 streams alive a h.1
ClosedLast-run id (stream_finished ∷ ss) p streams alive a h =
    ClosedLast-run id ss (section id stream_finished p).0 (streams - 1) alive (ground arith) h.1
ClosedLast-run id (exit c ∷ ss) p streams alive a h =
    ClosedLast-run id ss (section id (exit c) p).0 streams false (a.0, refl) h.1
ClosedLast-run id (try_close ∷ ss) p streams alive a h = elim (Bool-cases (stays_open p)) [
  | inl e ↦ rw e (ClosedLast-run id ss p streams alive a h)
  | inr e ↦
      let done = stays_open-false p e in
      let quiet : IsSchedule 0 false ss =
        quiet_of streams alive ss h (sym a.0 ∙ done.0) (sym a.1 ∙ done.1) in
      rw e (silent id ss _ refl quiet)
]

-- What is left of the schedule's streams and of the child.
abbrev pub streams_after : ℕ → List Section → ℕ
streams_after streams [] = streams
streams_after streams (chunk s c ∷ ss) = streams_after streams ss
streams_after streams (stream_finished ∷ ss) = streams_after (streams - 1) ss
streams_after streams (exit c ∷ ss) = streams_after streams ss
streams_after streams (try_close ∷ ss) = streams_after streams ss

abbrev pub alive_after : Bool → List Section → Bool
alive_after alive [] = alive
alive_after alive (chunk s c ∷ ss) = alive_after alive ss
alive_after alive (stream_finished ∷ ss) = alive_after alive ss
alive_after alive (exit c ∷ ss) = alive_after false ss
alive_after alive (try_close ∷ ss) = alive_after alive ss

At-try_close :
    (id : ProcessId) (p : RunningProcess) (streams : ℕ) (alive : Bool)
    → At streams alive p
    → At streams alive (section id try_close p).0
unfolding section
At-try_close id p streams alive a = ground arith

pub At-run :
    (id : ProcessId) (ss : List Section) (p : RunningProcess) (streams : ℕ) (alive : Bool)
    → At streams alive p
    → At (streams_after streams ss) (alive_after alive ss) (run_sections id ss p).0
unfolding run_sections push_output
At-run id [] p streams alive a = a
At-run id (chunk s c ∷ ss) p streams alive a =
    At-run id ss (section id (chunk s c) p).0 streams alive a
At-run id (stream_finished ∷ ss) p streams alive a =
    At-run id ss (section id stream_finished p).0 (streams - 1) alive (ground arith)
At-run id (exit c ∷ ss) p streams alive a =
    At-run id ss (section id (exit c) p).0 streams false (a.0, refl)
At-run id (try_close ∷ ss) p streams alive a =
    At-run id ss (section id try_close p).0 streams alive (At-try_close id p streams alive a)

pub closed-section :
    (id : ProcessId) (s : Section) (p : RunningProcess)
    → p.closed ≡ true
    → (section id s p).0.closed ≡ true
unfolding section push_output
closed-section id (chunk s c) p h = h
closed-section id stream_finished p h = h
closed-section id (exit c) p h = h
closed-section id try_close p h = ground arith

pub closes :
    (id : ProcessId) (p : RunningProcess)
    → p.open_streams ≡ 0
    → is_some p.exit_code ≡ true
    → (section id try_close p).0.closed ≡ true
unfolding section
closes id p e f = ground arith

module _ (id : ProcessId) (session : ProcessHandle) (tty : Bool) where
  -- However the sections of the tasks interleave, at most one `closed` event is logged, none
  -- while the entry is not marked closed, and no event comes behind it.
  pub run_sections-ClosedLast :
      (ss : List Section)
      → IsSchedule 2 true ss
      → ClosedLast (run_sections id ss (spawned session tty)).1
        × (closed_count (run_sections id ss (spawned session tty)).1
            ≡ as_count (run_sections id ss (spawned session tty)).0.closed)
  unfolding spawned
  run_sections-ClosedLast ss h = (
    ClosedLast-run id ss _ 2 true (refl, refl) h,
    omega (arith, closed_count-run id ss (spawned session tty)),
  )
