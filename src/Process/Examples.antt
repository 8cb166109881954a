-- ===== src/Process/Examples.antt =====
-- The theorems on processes at concrete inputs.
pub mod Service
use nexal.Prelude.{
  map, if◌then◌else◌, ℕ, String, string_eq, Bool, true, false, Option, none, some, List, [], ◌∷◌,
  ◌++◌, ◌≡◌, refl, inl, arith, u64_mod, ◌+◌, ◌<◌, ◌-◌,
}
use nexal.Prelude.Int.{ℤ, pos}
use nexal.Prelude.Map
use nexal.Process.Types.{
  ProcessId, ExecParams, ReadParams, RunningProcess, ProcessEntry, RetainedOutputChunk, stdout,
  stderr, running, starting, ExecOutputStream,
}
use nexal.Process.Output.{push_output, evict}
use nexal.Process.Output.Window.{IsLongestFit}
use nexal.Process.Output.Bounds.{IsValid, push_output-IsLongestFit, push_output-IsValid}
use nexal.Process.Read.{newer, read_page, collect}
use nexal.Process.Read.Collect.{Fits, IsFull}
use nexal.Process.Read.Paging.{read_page-append, read_page_limits}
use nexal.Process.Lifecycle.{
  Section, chunk, stream_finished, exit, try_close, run_sections, spawned, section,
}
use nexal.Process.Lifecycle.Log.{Consecutive, run_sections-Consecutive, spawned-IsValid}
use nexal.Process.Lifecycle.Closing.{ClosedLast, closed_count, as_count, run_sections-ClosedLast}
use nexal.Process.Server
use nexal.Process.Server.{Inner}
use nexal.Process.Tasks.Ending.{TaskStep, doing, reaping, run_tasks, closed_count-run_tasks}
use nexal.Pty.Handle.{ProcessHandle, Effect, abort}
use nexal.Pty.Handle.Terminate.{
  Call, requesting, terminating, performed, times, owned, is_due, terminate_once,
}

abbrev pub handle : ProcessHandle
handle = record {
  writer_tx = some 1;
  killer = some 2;
  reader_handle = some 3;
  reader_abort_handles = 4 ∷ 5 ∷ [];
  writer_handle = some 6;
  wait_handle = some 7;
  exit_status = false;
  exit_code = none;
}

abbrev calls : List Call
calls = requesting ∷ terminating ∷ requesting ∷ terminating ∷ []

terminate_once_example :
    times (abort 7) (performed handle calls).1
    ≡ (if is_due calls (abort 7) then owned handle (abort 7) else 0)
terminate_once_example = terminate_once handle calls (abort 7)

abbrev fresh_process : RunningProcess
fresh_process = spawned handle true

-- Two chunks, of three bytes and of two.
abbrev two_chunks : RunningProcess
two_chunks = push_output (push_output fresh_process stdout (1 ∷ 2 ∷ 3 ∷ [])) stderr (4 ∷ 5 ∷ [])

next_seq_two : two_chunks.next_seq ≡ 3
unfolding push_output spawned
next_seq_two = refl

two_chunks-IsValid : IsValid two_chunks
unfolding push_output spawned
two_chunks-IsValid =
    push_output-IsValid _ stderr (4 ∷ 5 ∷ [])
      (push_output-IsValid fresh_process stdout (1 ∷ 2 ∷ 3 ∷ []) (spawned-IsValid handle true)
        (omega arith) (omega arith))
      (omega arith) (omega arith)

push_output-IsLongestFit_example :
    IsLongestFit
      (two_chunks.output
        ++ record { seq = two_chunks.next_seq; stream = stdout; chunk = 6 ∷ [] } ∷ [])
      (push_output two_chunks stdout (6 ∷ [])).output
push_output-IsLongestFit_example =
    push_output-IsLongestFit two_chunks stdout (6 ∷ []) two_chunks-IsValid (omega arith)

push_output-IsValid_example : IsValid (push_output two_chunks stdout (6 ∷ []))
unfolding push_output spawned
push_output-IsValid_example =
    push_output-IsValid two_chunks stdout (6 ∷ []) two_chunks-IsValid (omega arith) (omega arith)

-- A page of at most four bytes holds the first chunk alone, and the next page starts at 2.
first_page : (read_page two_chunks 0 4).next_seq ≡ 2
unfolding read_page collect newer push_output evict spawned
first_page = refl

read_page-append_example :
    newer 0 two_chunks.output
    ≡ (read_page two_chunks 0 4).chunks
      ++ newer ((read_page two_chunks 0 4).next_seq - 1) two_chunks.output
read_page-append_example = read_page-append two_chunks 0 4 two_chunks-IsValid

read_page_limits_example :
    Fits 4 (read_page two_chunks 0 4).chunks
    × IsFull 4
        (read_page two_chunks 0 4).chunks
        (newer ((read_page two_chunks 0 4).next_seq - 1) two_chunks.output)
read_page_limits_example = read_page_limits two_chunks 0 4 two_chunks-IsValid

-- The exit is seen before the last chunk, and the streams end behind it.
abbrev life : List Section
life =
    chunk stdout (1 ∷ 2 ∷ [])
    ∷ stream_finished
    ∷ try_close
    ∷ exit (pos 0)
    ∷ try_close
    ∷ chunk stderr (3 ∷ [])
    ∷ stream_finished
    ∷ []

run_sections-Consecutive_example :
    Consecutive 1 (run_sections "p" life (spawned handle false)).1
    × IsValid (run_sections "p" life (spawned handle false)).0
run_sections-Consecutive_example =
    run_sections-Consecutive "p" handle false life (omega arith) (omega arith)

run_sections-ClosedLast_example :
    ClosedLast (run_sections "p" life (spawned handle false)).1
    × (closed_count (run_sections "p" life (spawned handle false)).1
        ≡ as_count (run_sections "p" life (spawned handle false)).0.closed)
run_sections-ClosedLast_example =
    run_sections-ClosedLast "p" handle false life
      (omega arith, (omega arith, (refl, (omega arith, (omega arith, tt)))))

abbrev late : List TaskStep
late = doing stream_finished ∷ doing try_close ∷ reaping (pos 0) ∷ []

-- The exit comes, and one stream outlives the retention time.
abbrev held_open : List Section
held_open = stream_finished ∷ try_close ∷ exit (pos 0) ∷ try_close ∷ chunk stderr (3 ∷ []) ∷ []

abbrev table : Inner
table = record Server.new { processes = ("p", running (spawned handle false)) ∷ [] }

closed_count-run_tasks_example :
    (closed_count (run_tasks "p" (map doing life ++ doing try_close ∷ late) table).1 ≡ 1)
    × (closed_count (run_tasks "p" (map doing held_open ++ reaping (pos 0) ∷ late) table).1
        ≡ closed_count (run_sections "p" held_open (spawned handle false)).1)
unfolding run_sections spawned push_output evict Map.get
closed_count-run_tasks_example =
    closed_count-run_tasks "p" handle false table life held_open late (pos 0) refl refl refl refl

life_closed : closed_count (run_sections "p" life (spawned handle false)).1 ≡ 0
unfolding run_sections spawned push_output evict
life_closed = refl
