-- ===== src/Process/Lifecycle/Log.antt =====
-- The events of a process carry the numbers 1, 2, 3, …, and keep it well formed.
use nexal.Prelude.{
  ℕ, ◌+◌, ◌≤◌, ◌<◌, ◌≡◌, refl, Option, none, some, List, [], ◌∷◌, length, arith, u64_mod, add64-eq,
  Bool-cases, inl, inr, Bool,
}
use nexal.Process.Types.{ProcessId, RunningProcess, ProcessEvent, event_seq}
use nexal.Process.Output.{retained_output_bytes_per_process, push_output}
use nexal.Process.Output.Bounds.{IsValid, Increasing-mono, push_output-IsValid}
use nexal.Process.Lifecycle.{
  Section, chunk, stream_finished, exit, try_close, section, stays_open, stays_open-false,
  run_sections, spawned, cons_some,
}
use nexal.Pty.Handle.{ProcessHandle}

-- A chunk that a channel delivers is far below the address space.
abbrev pub IsSmall : Section → Type 0
IsSmall (chunk stream bytes) = length bytes + retained_output_bytes_per_process < u64_mod
IsSmall stream_finished = Unit {0}
IsSmall (exit c) = Unit {0}
IsSmall try_close = Unit {0}

abbrev pub AllSmall : List Section → Type 0
AllSmall [] = Unit {0}
AllSmall (s ∷ ss) = IsSmall s × AllSmall ss

-- The numbers go up by one from `n`.
abbrev pub Consecutive : ℕ → List ProcessEvent → Type 0
Consecutive n [] = Unit {0}
Consecutive n (e ∷ es) = (event_seq e ≡ n) × Consecutive (n + 1) es

-- One section keeps a process well formed.
pub section-IsValid :
    (id : ProcessId) (s : Section) (p : RunningProcess)
    → IsSmall s
    → p.next_seq + 1 < u64_mod
    → IsValid p
    → IsValid (section id s p).0
unfolding section
section-IsValid id (chunk stream bytes) p small room v =
    push_output-IsValid p stream bytes v small room
section-IsValid id stream_finished p small room v = record {
  counted = v.counted;
  bounded = v.bounded;
  ordered = v.ordered;
  started = v.started;
  in_range = v.in_range;
  closing = ground (arith, v.closing);
}
section-IsValid id (exit c) p small room v = rw (add64-eq p.next_seq 1 room) (record {
  counted = v.counted;
  bounded = v.bounded;
  ordered =
      Increasing-mono 1 1 p.next_seq (p.next_seq + 1) p.output (omega arith) (omega arith)
        v.ordered;
  started = omega arith;
  in_range = room;
  closing = ground (arith, v.closing);
})
section-IsValid id try_close p small room v = elim (Bool-cases (stays_open p)) [
  | inl h ↦ rw h v
  | inr h ↦
      rw (h, add64-eq p.next_seq 1 room)
        (record {
          counted = v.counted;
          bounded = v.bounded;
          ordered =
              Increasing-mono 1 1 p.next_seq (p.next_seq + 1) p.output (omega arith) (omega arith)
                v.ordered;
          started = omega arith;
          in_range = room;
          closing = inr (stays_open-false p h);
        })
]

-- A section draws at most one number, and logs it.
pub section-next_seq :
    (id : ProcessId) (s : Section) (p : RunningProcess)
    → p.next_seq + 1 < u64_mod
    → Consecutive p.next_seq (cons_some (section id s p).1 [])
      × ((section id s p).0.next_seq ≡ p.next_seq + length (cons_some (section id s p).1 []))
unfolding section push_output
section-next_seq id (chunk stream bytes) p room = ((refl, tt), omega arith)
section-next_seq id stream_finished p room = (tt, omega arith)
section-next_seq id (exit c) p room = ((refl, tt), omega arith)
section-next_seq id try_close p room = elim (Bool-cases (stays_open p)) [
  | inl h ↦ rw h (tt, omega arith)
  | inr h ↦ rw h ((refl, tt), omega arith)
]

pub length-cons_some-le : (o : Option ProcessEvent) → length (cons_some o []) ≤ 1
length-cons_some-le none = omega arith
length-cons_some-le (some e) = omega arith

Consecutive-cons :
    (n m : ℕ) (o : Option ProcessEvent) (es : List ProcessEvent)
    → Consecutive n (cons_some o [])
    → m ≡ n + length (cons_some o [])
    → Consecutive m es
    → Consecutive n (cons_some o es)
Consecutive-cons n m none es c e d = rw (← omega_eq) d
  where
    omega_eq : m ≡ n
    omega_eq = omega arith
Consecutive-cons n m (some a) es c e d = (c.0, (rw e at d))

run_sections_log :
    (id : ProcessId) (ss : List Section) (p : RunningProcess)
    → AllSmall ss
    → p.next_seq + length ss < u64_mod
    → IsValid p
    → Consecutive p.next_seq (run_sections id ss p).1 × IsValid (run_sections id ss p).0
unfolding run_sections
run_sections_log id [] p small room v = (tt, v)
run_sections_log id (s ∷ ss) p small room v =
    let now = section-next_seq id s p (omega arith) in
    let rest =
      run_sections_log id ss (section id s p).0 small.1
        (omega (arith, now.1, length-cons_some-le (section id s p).1))
        (section-IsValid id s p small.0 (omega arith) v) in
    (Consecutive-cons p.next_seq _ (section id s p).1 _ now.0 now.1 rest.0, rest.1)

pub spawned-IsValid : (session : ProcessHandle) (tty : Bool) → IsValid (spawned session tty)
unfolding spawned
spawned-IsValid session tty = record {
  counted = refl;
  bounded = omega arith;
  ordered = tt;
  started = omega arith;
  in_range = omega arith;
  closing = inl refl;
}

-- From the spawn on, whatever the order of the sections, the events that are logged carry the
-- numbers 1, 2, 3, … without a gap, and the process stays well formed, as long as fewer sections
-- run than there are numbers and no chunk is near the size of the address space.
pub run_sections-Consecutive :
    (id : ProcessId) (session : ProcessHandle) (tty : Bool) (ss : List Section)
    → AllSmall ss
    → length ss + 1 < u64_mod
    → Consecutive 1 (run_sections id ss (spawned session tty)).1
      × IsValid (run_sections id ss (spawned session tty)).0
unfolding spawned
run_sections-Consecutive id session tty ss small room =
    run_sections_log id ss (spawned session tty) small (omega arith) (spawned-IsValid session tty)
