-- ===== src/Process/Tasks.antt =====
-- crates/nexal-agent/src/process/local.rs: the tasks of the processes against the table, and every
-- way in which the table changes, as steps that may come in any order.
pub mod Validity
pub mod Publishing
pub mod Ending
use nexal.Prelude.{
  ℕ, String, string_eq, Bool, true, false, Option, none, some, List, [], ◌∷◌, ◌++◌, ◌&&◌,
  if◌then◌else◌, ◌==◌, ◌===◌,
}
use nexal.Prelude.Int.{ℤ, negsuc, ℤ_eq}
use nexal.Prelude.Map
use nexal.Process.Types.{
  ProcessId, ExecOutputStream, RunningProcess, ProcessEntry, ExecParams, ProcessEvent, starting,
  running,
}
use nexal.Process.Lifecycle.{
  Section, chunk, stream_finished, exit, try_close, section, stream_chunk, emit_closed,
  finish_stream, note_exit,
}
use nexal.Process.Server
use nexal.Process.Server.{Inner}
use nexal.Pty.Handle.{ProcessHandle}

on_entry :
    Inner
    → ProcessId
    → (RunningProcess → RunningProcess × Option ProcessEvent)
    → Option ProcessEntry
    → Inner × Option ProcessEvent
on_entry inner id f none = (inner, none)
on_entry inner id f (some starting) = (inner, none)
on_entry inner id f (some (running p)) =
    let (p', event) = f p in
    (record inner { processes = Map.insert inner.processes id (running p') }, event)

-- `if let Some(ProcessEntry::Running(process)) = processes.get_mut(&process_id)`
unfoldable pub on_running :
    Inner
    → ProcessId
    → (RunningProcess → RunningProcess × Option ProcessEvent)
    → Inner × Option ProcessEvent
unfolding on_entry
on_running inner id f = on_entry inner id f (Map.get inner.processes id)

-- The end of `watch_exit`, after the retention time
has_exited_with : ℤ → Option ProcessEntry → Bool
has_exited_with exit_code none = false
has_exited_with exit_code (some starting) = false
has_exited_with exit_code (some (running p)) = elim p.exit_code [
  | none ↦ false
  | some code ↦ code === exit_code
]

unfoldable pub remove_exited : Inner → ProcessId → ℤ → Inner
unfolding has_exited_with
remove_exited inner id exit_code =
    if has_exited_with exit_code (Map.get inner.processes id)
    then record inner { processes = Map.remove inner.processes id }
    else inner

-- Where the events go: the channel of notifications, which may be closed, and the broadcast.
pub record Outlets : Type 0 where
  pub notifications : List ProcessEvent
  pub notifications_open : Bool
  pub process_events : List ProcessEvent

-- `notifications.notify`, and the broadcast behind it
unfoldable pub publish : Outlets → ProcessEvent → Outlets
publish o event = record o {
  notifications = if o.notifications_open then o.notifications ++ event ∷ [] else o.notifications;
  process_events = o.process_events ++ event ∷ [];
}

-- `maybe_emit_closed` sends its event whether or not the notification went out.
unfoldable pub publish_closed : Outlets → Option ProcessEvent → Outlets
unfolding publish
publish_closed o none = o
publish_closed o (some event) = publish o event

unfoldable pub maybe_emit_closed : Inner × Outlets → ProcessId → Inner × Outlets
maybe_emit_closed (inner, o) id =
    let (inner', event) = on_running inner id (emit_closed id) in (inner', publish_closed o event)

unfoldable pub finish_output_stream : Inner × Outlets → ProcessId → Inner × Outlets
finish_output_stream (inner, o) id =
    let (inner', event) = on_running inner id finish_stream in maybe_emit_closed (inner', o) id

-- After a section: stop when there is no process, or when its event cannot be sent.
unfoldable pub go_on {ℓ} : {A : Type ℓ} → Option ProcessEvent → Outlets → A → A → (Outlets → A) → A
go_on none o gone unsent go = gone
go_on (some event) o gone unsent go = if o.notifications_open then go (publish o event) else unsent

-- `stream_output`, when no other task takes the lock meanwhile: the chunks that the channel
-- delivers before it closes.
unfoldable pub stream_output :
    ProcessId → ExecOutputStream → List (List ℕ) → Inner × Outlets → Inner × Outlets
unfolding go_on
stream_output id stream [] (inner, o) = finish_output_stream (inner, o) id
stream_output id stream (bytes ∷ more) (inner, o) =
    let (inner', event) = on_running inner id (stream_chunk id stream bytes) in
    let stop = finish_output_stream (inner', o) id in
    go_on event o stop stop (λ o'. stream_output id stream more (inner', o'))

abbrev pub exit_code_of : Option ℤ → ℤ
exit_code_of none = negsuc 0
exit_code_of (some code) = code

closed_behind : ProcessId → ℤ → Inner × Outlets → Inner × Outlets × Option ℤ
closed_behind id exit_code (inner, o) =
    let (inner', o') = maybe_emit_closed (inner, o) id in (inner', o', some exit_code)

-- `watch_exit` up to the retention time; the exit code when the process is to be reaped.
unfoldable pub watch_exit : ProcessId → Option ℤ → Inner × Outlets → Inner × Outlets × Option ℤ
unfolding go_on closed_behind
watch_exit id exit_rx (inner, o) =
    let exit_code = exit_code_of exit_rx in
    let (inner', event) = on_running inner id (note_exit id exit_code) in
    go_on event o (closed_behind id exit_code (inner', o)) (inner', o, none)
      (λ o'. closed_behind id exit_code (inner', o'))

-- Every section under the lock that changes the table.
pub data Action : Type 0 where
  initialize initialized : Action
  start : ExecParams → Action
  start_failed : ProcessId → String → Action
  start_spawned : ExecParams → ProcessHandle → Action
  task : ProcessId → Section → Action
  reap : ProcessId → ℤ → Action
  terminate : ProcessId → Action
  shutdown : Action

unfoldable pub step : Inner → Action → Inner
unfolding on_running
step inner initialize = (Server.initialize inner).0
step inner initialized = (Server.initialized inner).0
step inner (start params) = (Server.start_process inner params).0
step inner (start_failed id message) = (Server.start_failed inner id message).0
step inner (start_spawned params session) = (Server.start_spawned inner params session).0
step inner (task id s) = (on_running inner id (section id s)).0
step inner (reap id exit_code) = remove_exited inner id exit_code
step inner (terminate id) = (Server.terminate_process inner id).0
step inner shutdown = (Server.shutdown inner).0

unfoldable pub run : Inner → List Action → Inner
run inner [] = inner
run inner (a ∷ as') = run (step inner a) as'
