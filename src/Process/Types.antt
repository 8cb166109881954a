-- ===== src/Process/Types.antt =====
-- crates/nexal-agent: the values that pass between the client and the process service
-- (src/process/local.rs, src/protocol/wire.rs, src/protocol/methods.rs, src/protocol/errors.rs,
-- src/process/events.rs). Bytes are numbers, and a `HashMap` is an association list.
use nexal.Prelude.{ℕ, String, Bool, Option, List}
use nexal.Prelude.Int.{ℤ}
use nexal.Prelude.Map.{Map}
use nexal.Pty.Handle.{ProcessHandle}

abbrev pub ProcessId : Type 0
ProcessId = String

pub data ExecOutputStream : Type 0 where
  stdout stderr pty : ExecOutputStream

pub data WriteStatus : Type 0 where
  accepted unknown_process stdin_closed starting : WriteStatus

pub data ChannelErrorKind : Type 0 where
  parse invalid_request method_not_found invalid_params internal : ChannelErrorKind

-- `data` is absent in every error that the service makes.
pub record ChannelError : Type 0 where
  pub kind : ChannelErrorKind
  pub message : String

pub record RetainedOutputChunk : Type 0 where
  pub seq : ℕ
  pub stream : ExecOutputStream
  pub chunk : List ℕ

-- `wake_tx` is the number that was last given to the watch channel, whether or not it had a
-- subscriber and kept it; readers are woken by it and do not read it.
pub record RunningProcess : Type 0 where
  pub session : ProcessHandle
  pub tty : Bool
  pub output : List RetainedOutputChunk
  pub retained_bytes : ℕ
  pub next_seq : ℕ
  pub exit_code : Option ℤ
  pub wake_tx : ℕ
  pub open_streams : ℕ
  pub closed : Bool

pub data ProcessEntry : Type 0 where
  starting : ProcessEntry
  running : RunningProcess → ProcessEntry

pub record ExecParams : Type 0 where
  pub process_id : ProcessId
  pub argv : List String
  pub cwd : String
  pub env : Map String String
  pub tty : Bool
  pub arg0 : Option String

pub record ReadParams : Type 0 where
  pub process_id : ProcessId
  pub after_seq : Option ℕ
  pub max_bytes : Option ℕ
  pub wait_ms : Option ℕ

pub record ReadResponse : Type 0 where
  pub chunks : List RetainedOutputChunk
  pub next_seq : ℕ
  pub exited : Bool
  pub exit_code : Option ℤ
  pub closed : Bool
  pub failure : Option String

pub data ProcessEvent : Type 0 where
  output_delta : ProcessId → ℕ → ExecOutputStream → List ℕ → ProcessEvent
  exited : ProcessId → ℕ → ℤ → ProcessEvent
  closed : ProcessId → ℕ → ProcessEvent

abbrev pub event_seq : ProcessEvent → ℕ
event_seq (output_delta p seq s c) = seq
event_seq (exited p seq c) = seq
event_seq (closed p seq) = seq
