-- ===== src/Process/Examples/Service.antt =====
-- The theorems on the service at concrete inputs.
use nexal.Prelude.{string_eq, true, false, none, some, List, [], ◌∷◌, ◌≡◌, refl, arith}
use nexal.Prelude.Int.{pos}
use nexal.Prelude.Map
use nexal.Process.Types.{ExecParams, ReadParams, ReadResponse, RunningProcess, stdout, running}
use nexal.Process.Output.Bounds.{IsValid}
use nexal.Process.Lifecycle.{exit, try_close, run_sections, spawned}
use nexal.Process.Server
use nexal.Process.Server.{Inner, Turn, Result, ok, err, new}
use nexal.Process.Server.Handshake.{
  handshakes-in_order, is_ok, handshakes, initialize_request, initialized_notification,
}
use nexal.Process.Server.Start.{OnlyProcesses, may_start, start_process-may_start, entry_after}
use nexal.Process.Server.Waiting.{Answer, read_loop-Answer}
use nexal.Process.Tasks.{
  step, Action, Outlets, run, stream_output, watch_exit, initialize, initialized, start,
  start_spawned, task,
}
use nexal.Process.Tasks.Validity.{run-IsValid}
use nexal.Process.Tasks.Publishing.{Shows, stream_sections, stream_output-Shows, watch_exit-Shows}
use nexal.Process.Examples.{handle}

abbrev params : ExecParams
params = record {
  process_id = "p";
  argv = "ls" ∷ [];
  cwd = "/";
  env = [];
  tty = false;
  arg0 = none;
}

abbrev read_params : ReadParams
read_params = record { process_id = "p"; after_seq = none; max_bytes = none; wait_ms = some 50 }

abbrev ready : Inner
ready = record { processes = []; initialize_requested = true; initialized = true }

abbrev child : RunningProcess
child = spawned handle false

abbrev busy : Inner
busy = record ready { processes = ("p", running child) ∷ [] }

start_process-may_start_example :
    (is_ok (Server.start_process busy params).1 ≡ may_start busy params)
    × (Map.get (Server.start_process busy params).0.processes "p"
        ≡ entry_after (may_start busy params) busy "p" "p")
    × OnlyProcesses busy (Server.start_process busy params).0
start_process-may_start_example = start_process-may_start busy params "p"

-- The first turn finds nothing before the deadline, and the second is past it.
abbrev turns : List Turn
turns =
    record { inner = busy; tested_at = 10; waiting_at = 11 }
    ∷ record { inner = busy; tested_at = 61; waiting_at = 61 }
    ∷ []

read_loop-Answer_example :
    (r : Result ReadResponse) × (Server.read_loop read_params 60 turns ≡ some r)
    × Answer read_params 60 turns r
read_loop-Answer_example = read_loop-Answer read_params 60 turns refl

abbrev outlets : Outlets
outlets = record { notifications = []; notifications_open = true; process_events = [] }

stream_output-Shows_example :
    Shows "p" child
      (stream_sections stdout ((1 ∷ []) ∷ (2 ∷ []) ∷ []))
      outlets
      (stream_output "p" stdout ((1 ∷ []) ∷ (2 ∷ []) ∷ []) (busy, outlets)).0
      (stream_output "p" stdout ((1 ∷ []) ∷ (2 ∷ []) ∷ []) (busy, outlets)).1
unfolding Map.get
stream_output-Shows_example =
    stream_output-Shows "p" stdout ((1 ∷ []) ∷ (2 ∷ []) ∷ []) busy outlets child refl refl

watch_exit-Shows_example :
    Shows "p" child
      (exit (pos 3) ∷ try_close ∷ [])
      outlets
      (watch_exit "p" (some (pos 3)) (busy, outlets)).0
      (watch_exit "p" (some (pos 3)) (busy, outlets)).1
    × ((watch_exit "p" (some (pos 3)) (busy, outlets)).2 ≡ some (pos 3))
unfolding Map.get
watch_exit-Shows_example =
    watch_exit-Shows "p" (some (pos 3)) (pos 3) busy outlets child refl refl refl

abbrev session_actions : List Action
session_actions =
    initialize
    ∷ initialized
    ∷ start params
    ∷ start_spawned params handle
    ∷ task "p" (exit (pos 0))
    ∷ []

abbrev exited_child : RunningProcess
exited_child = (run_sections "p" (exit (pos 0) ∷ []) child).0

run-IsValid_example : IsValid exited_child
unfolding run Server.start_process Server.start_spawned Server.initialize Server.initialized Map.get
    Map.insert run_sections spawned step
run-IsValid_example = run-IsValid session_actions "p" exited_child (omega arith) (omega arith) refl

handshakes-in_order_example :
    is_ok (
      Server.require_initialized_for
        (handshakes new (initialized_notification ∷ initialize_request ∷ []))
        "exec")
    ≡ false
handshakes-in_order_example =
    handshakes-in_order (initialized_notification ∷ initialize_request ∷ [])
