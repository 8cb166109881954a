-- ===== src/Process/Lifecycle.antt =====
-- crates/nexal-agent/src/process/local.rs: what the tasks of one process do to it. Two tasks copy
-- its output streams and one waits for its exit; each holds the lock for one section at a time,
-- and the sections of the three tasks interleave. These are the sections on an entry that is in the
-- table; the last one of `watch_exit`, which takes it out, is a step of Process/Tasks/Ending.antt.
pub mod Log
pub mod Closing
use nexal.Prelude.{
  ℕ, zero, suc, Bool, true, false, Option, none, some, List, [], ◌∷◌, ◌||◌, not, is_some, arith,
  ◌≡◌, ◌==◌, ltb, ◌-◌, if◌then◌else◌, add64,
}
use nexal.Prelude.Int.{ℤ}
use nexal.Process.Types.{ProcessId, ExecOutputStream, RunningProcess, ProcessEvent}
use nexal.Process.Output.{push_output}
use nexal.Pty.Handle.{ProcessHandle}

-- The entry that `start_process` inserts after a spawn; `watch::channel(0)`.
unfoldable pub spawned : ProcessHandle → Bool → RunningProcess
spawned session tty = record {
  session = session;
  tty = tty;
  output = [];
  retained_bytes = 0;
  next_seq = 1;
  exit_code = none;
  wake_tx = 0;
  open_streams = 2;
  closed = false;
}

-- `stream_output`, one chunk
unfoldable pub stream_chunk :
    ProcessId → ExecOutputStream → List ℕ → RunningProcess → RunningProcess × Option ProcessEvent
stream_chunk id stream chunk p =
    (push_output p stream chunk, some (ProcessEvent.output_delta id p.next_seq stream chunk))

-- `watch_exit`, under the lock
unfoldable pub note_exit : ProcessId → ℤ → RunningProcess → RunningProcess × Option ProcessEvent
note_exit id exit_code p = (
  record p { next_seq = add64 p.next_seq 1; exit_code = some exit_code; wake_tx = p.next_seq },
  some (ProcessEvent.exited id p.next_seq exit_code),
)

-- `finish_output_stream`, before `maybe_emit_closed`
unfoldable pub finish_stream : RunningProcess → RunningProcess × Option ProcessEvent
finish_stream p =
    (record p { open_streams = if ltb 0 p.open_streams then p.open_streams - 1 else 0 }, none)

-- `maybe_emit_closed`, under the lock
abbrev pub stays_open : RunningProcess → Bool
stays_open p = p.closed || (not (p.open_streams == 0) || not (is_some p.exit_code))

pub stays_open-false :
    (p : RunningProcess)
    → stays_open p ≡ false
    → (p.open_streams ≡ 0) × (is_some p.exit_code ≡ true)
stays_open-false p h = ground arith

unfoldable pub emit_closed : ProcessId → RunningProcess → RunningProcess × Option ProcessEvent
emit_closed id p = if stays_open p then (p, none) else (
  record p { closed = true; next_seq = add64 p.next_seq 1; wake_tx = p.next_seq },
  some (ProcessEvent.closed id p.next_seq),
)

pub data Section : Type 0 where
  chunk : ExecOutputStream → List ℕ → Section
  stream_finished : Section
  exit : ℤ → Section
  try_close : Section

unfoldable pub section : ProcessId → Section → RunningProcess → RunningProcess × Option ProcessEvent
unfolding stream_chunk note_exit finish_stream emit_closed
section id (chunk stream bytes) p = stream_chunk id stream bytes p
section id stream_finished p = finish_stream p
section id (exit exit_code) p = note_exit id exit_code p
section id try_close p = emit_closed id p

abbrev pub cons_some {ℓ} : {A : Type ℓ} → Option A → List A → List A
cons_some none rest = rest
cons_some (some a) rest = a ∷ rest

-- The sections of the tasks in the order in which they took the lock: the process in the end, and
-- the events in the order in which their sequence numbers were drawn.
unfoldable pub run_sections :
    ProcessId → List Section → RunningProcess → RunningProcess × List ProcessEvent
unfolding section
run_sections id [] p = (p, [])
run_sections id (s ∷ ss) p =
    let (p', event) = section id s p in
    let (q, events) = run_sections id ss p' in (q, cons_some event events)
