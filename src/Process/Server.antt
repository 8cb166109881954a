-- ===== src/Process/Server.antt =====
-- crates/nexal-agent/src/process/local.rs: `LocalProcess`, the table of processes and the calls
-- of the client. A call that awaits between two locks is two functions, one for each lock.
pub mod Handshake
pub mod Start
pub mod Waiting
use nexal.Prelude.{
  ℕ, ◌+◌, String, string_eq, str_append, Bool, true, false, Option, none, some, List, [], ◌∷◌, ◌++◌,
  not, ltb, leb, is_some, ◌≡◌, ◌||◌, if◌then◌else◌, u64_mod, ◌-◌, ◌==◌,
}
use nexal.Prelude.Int.{ℤ}
use nexal.Prelude.Map
use nexal.Prelude.Map.{Map}
use nexal.Process.Types.{
  ProcessId, WriteStatus, ChannelErrorKind, ChannelError, RunningProcess, ProcessEntry, ExecParams,
  ReadParams, ReadResponse, ProcessEvent, starting, running, accepted, unknown_process,
  stdin_closed, invalid_request, invalid_params, internal,
}
use nexal.Process.Read.{read_page, is_empty}
use nexal.Process.Lifecycle.{spawned}
use nexal.Pty.Handle.{ProcessHandle, Effect, terminate, writer_sender}

pub record Inner : Type 0 where
  pub processes : Map ProcessId ProcessEntry
  pub initialize_requested : Bool
  pub initialized : Bool

pub data Result {ℓ} (A : Type ℓ) : Type ℓ where
  ok : A → Result A
  err : ChannelError → Result A

infixl 5 ◌>>=◌
abbrev pub ◌>>=◌ {ℓ κ} : {A : Type ℓ} {B : Type κ} → Result A → (A → Result B) → Result B
ok a >>= f = f a
err e >>= f = err e

abbrev pub error : ChannelErrorKind → String → ChannelError
error kind message = record { kind = kind; message = message }

-- `LocalProcess::new`
abbrev pub new : Inner
new = record { processes = []; initialize_requested = false; initialized = false }

-- The answer, without the shell and the directory, which the system gives.
unfoldable pub initialize : Inner → Inner × Result (Unit {0})
initialize inner = (
  record inner { initialize_requested = true },
  if inner.initialize_requested
      then err (error invalid_request "initialize may only be sent once per connection")
      else ok tt,
)

unfoldable pub initialized : Inner → Inner × Result (Unit {0})
initialized inner =
    if not inner.initialize_requested
    then (inner, err (error internal "received `initialized` notification before `initialize`"))
    else (record inner { initialized = true }, ok tt)

unfoldable pub require_initialized_for : Inner → String → Result (Unit {0})
require_initialized_for inner method_family =
    if not inner.initialize_requested
    then err (
        error invalid_request (
          str_append (str_append "client must call initialize before using " method_family)
            " methods"))
    else if not inner.initialized
    then err (
        error invalid_request (
          str_append (str_append "client must send initialized before using " method_family)
            " methods"))
    else ok tt

-- `argv.split_first()`
unfoldable pub split_first : List String → Result (String × List String)
split_first [] = err (error invalid_params "argv must not be empty")
split_first (program ∷ args) = ok (program, args)

unfoldable pub reserve : Inner → ExecParams → Inner × Result (Unit {0})
reserve inner params =
    if Map.contains_key inner.processes params.process_id
    then (
      inner,
      err (
          error invalid_request
            (str_append (str_append "process " params.process_id) " already exists")),
    )
    else (record inner { processes = Map.insert inner.processes params.process_id starting }, ok tt)

unfoldable pub after_check :
    Inner → ExecParams → Result (String × List String) → Inner × Result (Unit {0})
unfolding reserve
after_check inner params (err e) = (inner, err e)
after_check inner params (ok program) = reserve inner params

-- `start_process` until the spawn
unfoldable pub start_process : Inner → ExecParams → Inner × Result (Unit {0})
unfolding after_check require_initialized_for split_first
start_process inner params =
    after_check inner params (require_initialized_for inner "exec" >>= λ _. split_first params.argv)

unfoldable pub is_starting : Option ProcessEntry → Bool
is_starting (some starting) = true
is_starting (some (running p)) = false
is_starting none = false

-- `start_process` when the spawn failed
unfoldable pub start_failed : Inner → ProcessId → String → Inner × Result ProcessId
unfolding is_starting
start_failed inner id message = (
  if is_starting (Map.get inner.processes id)
      then record inner { processes = Map.remove inner.processes id }
      else inner,
  err (error internal message),
)

-- `start_process` when the spawn succeeded; the three tasks of the process run from here on.
unfoldable pub start_spawned : Inner → ExecParams → ProcessHandle → Inner × Result ProcessId
unfolding spawned
start_spawned inner params session = (
  record inner {
    processes = Map.insert inner.processes params.process_id (running (spawned session params.tty));
  },
  ok params.process_id,
)

abbrev pub unwrap_or {ℓ} : {A : Type ℓ} → Option A → A → A
unwrap_or none d = d
unwrap_or (some a) d = a

abbrev pub usize_max : ℕ
usize_max = u64_mod - 1

read_entry : ReadParams → Option ProcessEntry → Result ReadResponse
read_entry params none =
    err (error invalid_request (str_append "unknown process id " params.process_id))
read_entry params (some starting) =
    err (
      error invalid_request
        (str_append (str_append "process id " params.process_id) " is starting"))
read_entry params (some (running p)) =
    ok (read_page p (unwrap_or params.after_seq 0) (unwrap_or params.max_bytes usize_max))

-- One turn of the loop of `exec_read`, under the lock
unfoldable pub read_once : Inner → ReadParams → Result ReadResponse
unfolding read_entry
read_once inner params = read_entry params (Map.get inner.processes params.process_id)

-- What one turn of the loop sees: the table, and the clock where the deadline is tested and where
-- the remaining time is computed.
pub record Turn : Type 0 where
  pub inner : Inner
  pub tested_at : ℕ
  pub waiting_at : ℕ

-- The loop. `none` says that the turns are used up, and the call is waiting still.
unfoldable pub read_loop : ReadParams → ℕ → List Turn → Option (Result ReadResponse)
read_loop params deadline [] = none
read_loop params deadline (turn ∷ turns) =
    let rest = read_loop params deadline turns in
    elim (read_once turn.inner params) [
      | err e ↦ some (err e)
      | ok response ↦
          if not (is_empty response.chunks) || (response.exited || leb deadline turn.tested_at)
          then some (ok response)
          else if leb deadline turn.waiting_at
          then some (ok response)
          else rest
    ]

-- `exec_read`: the call begins at `now` in the state `called`.
unfoldable pub exec_read : Inner → ReadParams → ℕ → List Turn → Option (Result ReadResponse)
unfolding read_loop require_initialized_for
exec_read called params now turns =
    let answer = read_loop params (now + unwrap_or params.wait_ms 0) turns in
    elim (require_initialized_for called "exec") [ err e ↦ some (err e) | ok _ ↦ answer ]

-- Where `exec_write` sends: a status at once, or the writer's channel.
pub data Target : Type 0 where
  status : WriteStatus → Target
  writer : Option ℕ → Target

unfoldable pub write_target : Option ProcessEntry → Target
write_target none = status unknown_process
write_target (some starting) = status WriteStatus.starting
write_target (some (running p)) =
    if not p.tty then status stdin_closed else writer (writer_sender p.session)

send_to : Target → Bool → Result WriteStatus
send_to (status s) receiver_alive = ok s
send_to (writer none) receiver_alive = err (error internal "failed to write to process stdin")
send_to (writer (some tx)) receiver_alive =
    if receiver_alive then ok accepted else err (error internal "failed to write to process stdin")

-- `exec_write`; `receiver_alive` says whether the writer's task still takes chunks.
unfoldable pub exec_write : Inner → ProcessId → Bool → Result WriteStatus
unfolding send_to write_target require_initialized_for
exec_write inner id receiver_alive = require_initialized_for inner "exec" >>= λ _.
    send_to (write_target (Map.get inner.processes id)) receiver_alive

-- The new table, the answer, and the calls on the child's handle
unfoldable pub terminate_entry :
    Inner → ProcessId → Option ProcessEntry → Inner × Bool × List Effect
terminate_entry inner id none = (inner, false, [])
terminate_entry inner id (some starting) = (inner, false, [])
terminate_entry inner id (some (running p)) =
    let killed = terminate p.session in
    if is_some p.exit_code then (inner, false, []) else (
      record inner {
        processes = Map.insert inner.processes id (running (record p { session = killed.0 }));
      },
      true,
      killed.1,
    )

unfoldable pub answer_if :
    Result (Unit {0}) → Inner → Inner × Bool × List Effect → Inner × Result Bool × List Effect
answer_if (err e) inner done = (inner, err e, [])
answer_if (ok _) inner (inner', answer, effects) = (inner', ok answer, effects)

unfoldable pub terminate_process : Inner → ProcessId → Inner × Result Bool × List Effect
unfolding answer_if terminate_entry require_initialized_for
terminate_process inner id =
    answer_if (require_initialized_for inner "exec") inner
      (terminate_entry inner id (Map.get inner.processes id))

terminate_all : Map ProcessId ProcessEntry → List Effect
terminate_all [] = []
terminate_all ((id, starting) ∷ m) = terminate_all m
terminate_all ((id, running p) ∷ m) = (terminate p.session).1 ++ terminate_all m

-- The table is drained first, and the children are terminated after.
unfoldable pub shutdown : Inner → Inner × List Effect
unfolding terminate_all
shutdown inner = (record inner { processes = [] }, terminate_all inner.processes)
