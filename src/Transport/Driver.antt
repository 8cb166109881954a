-- ===== src/Transport/Driver.antt =====
-- crates/utils/transport/src/transport.rs: `run_accepted_driver`, and the loop over one socket that
-- `run_client_driver` has in the same words. A turn of the loop is a branch of its `select!` with
-- what the branch gets: whether the socket takes what is written, the clock, or a message. A branch
-- that is not enabled is not taken.
pub mod Mirror
pub mod Losses
pub mod Heartbeats
use nexal.Prelude.{
  ℕ, ◌+◌, Bool, true, false, ◌&&◌, Option, none, some, List, [], ◌∷◌, ◌++◌, ◌≡◌, if◌then◌else◌, leb,
  is_some,
}
use nexal.Wire.Values.{Values}
use nexal.Transport.Frames.{FrameCodec, classify_ping_pong}
use nexal.Transport.Handle.{DriverCmd, send, start_heartbeat, stop_heartbeat, close}

pub record HeartbeatOptions : Type 0 where
  pub interval : ℕ
  pub timeout : ℕ

-- Milliseconds
abbrev pub default_heartbeat : HeartbeatOptions
default_heartbeat = record { interval = 30000; timeout = 10000 }

pub data TransportEvent : Type 0 where
  frame : List ℕ → TransportEvent
  heartbeat_dead disconnected reconnected : TransportEvent

-- `ticking` says that there is an interval.
pub record Heartbeat : Type 0 where
  pub enabled : Bool
  pub ticking : Bool
  pub deadline : Option ℕ

-- At the start of a socket, `make_heartbeat_interval(hb_enabled, …)`
abbrev pub fresh : Bool → Heartbeat
fresh enabled = record { enabled = enabled; ticking = enabled; deadline = none }

-- What `ws_reader.next()` gives
pub data Incoming : Type 0 where
  binary : List ℕ → Incoming
  closed other failed ended : Incoming

-- The flags say whether the socket takes what the turn writes, and whether the event is received.
-- A command is missing when all handles are gone.
pub data Turn : Type 0 where
  command : Option DriverCmd → Bool → Turn
  tick : ℕ → Bool → Turn
  expired : ℕ → Turn
  message : Incoming → Bool → Bool → Turn

-- `pinged` and `ponged` are writes of the heartbeat's frames, `wrote` one of a client's frame.
pub data Output : Type 0 where
  wrote : List ℕ → Output
  pinged ponged closed_socket : Output
  event : TransportEvent → Output

-- How a turn leaves the loop: not at all, by a socket that is gone, by a command to close, or
-- because nobody receives the events.
pub data Exit : Type 0 where
  running lost closed abandoned : Exit

abbrev written : Bool → Output → List Output
written true o = o ∷ []
written false o = []

abbrev lost_unless : Bool → Exit
lost_unless true = running
lost_unless false = lost

module _ {Value : Type 0} ⦃values : Values Value⦄ (codec : FrameCodec Value)
    (opts : HeartbeatOptions) where
  unfoldable pub on_command : Heartbeat → Option DriverCmd → Bool → Heartbeat × List Output × Exit
  on_command hb (some (send bytes)) sent = (hb, written sent (wrote bytes), lost_unless sent)
  on_command hb (some start_heartbeat) sent =
      (record hb { enabled = true; ticking = true }, [], running)
  on_command hb (some stop_heartbeat) sent =
      (record hb { enabled = false; ticking = false; deadline = none }, [], running)
  on_command hb (some close) sent = (hb, closed_socket ∷ [], Exit.closed)
  on_command hb none sent = (hb, closed_socket ∷ [], Exit.closed)

  unfoldable pub on_tick : Heartbeat → ℕ → Bool → Heartbeat × List Output × Exit
  on_tick hb now sent =
      if hb.enabled && hb.ticking
      then (
        (if sent then record hb { deadline = some (now + opts.timeout) } else hb),
        written sent pinged,
        lost_unless sent,
      )
      else (hb, [], running)

  unfoldable pub on_deadline : Heartbeat → Option ℕ → ℕ → Heartbeat × List Output × Exit
  on_deadline hb none now = (hb, [], running)
  on_deadline hb (some deadline) now =
      if leb deadline now
      then (record hb { deadline = none }, event heartbeat_dead ∷ [], running)
      else (hb, [], running)

  unfoldable pub on_binary :
      Heartbeat → List ℕ → Option Bool → Bool → Bool → Heartbeat × List Output × Exit
  on_binary hb bytes (some true) sent received = (hb, written sent ponged, lost_unless sent)
  on_binary hb bytes (some false) sent received = (record hb { deadline = none }, [], running)
  on_binary hb bytes none sent received =
      (hb, written received (event (frame bytes)), if received then running else abandoned)

  unfoldable pub turn : Heartbeat → Turn → Heartbeat × List Output × Exit
  unfolding on_command on_tick on_deadline on_binary
  turn hb (command cmd sent) = on_command hb cmd sent
  turn hb (tick now sent) = on_tick hb now sent
  turn hb (expired now) = on_deadline hb hb.deadline now
  turn hb (message (binary bytes) sent received) =
      on_binary hb bytes (classify_ping_pong codec bytes) sent received
  turn hb (message closed sent received) = (hb, [], lost)
  turn hb (message other sent received) = (hb, [], running)
  turn hb (message failed sent received) = (hb, [], lost)
  turn hb (message ended sent received) = (hb, [], lost)

  -- The turn, and the loop behind it unless the turn has left it
  unfoldable pub and_then :
      Heartbeat × List Output × Exit
      → Heartbeat × List Output × Exit
      → Heartbeat × List Output × Exit
  and_then (hb, outs, running) (hb', more, exit) = (hb', outs ++ more, exit)
  and_then (hb, outs, lost) rest = (hb, outs, lost)
  and_then (hb, outs, closed) rest = (hb, outs, Exit.closed)
  and_then (hb, outs, abandoned) rest = (hb, outs, abandoned)

  unfoldable pub drive : Heartbeat → List Turn → Heartbeat × List Output × Exit
  unfolding turn and_then
  drive hb [] = (hb, [], running)
  drive hb (t ∷ ts) = and_then (turn hb t) (drive (turn hb t).0 ts)

  abbrev pub farewell : Exit → List Output
  farewell lost = event disconnected ∷ []
  farewell running = []
  farewell closed = []
  farewell abandoned = []

  abbrev pub is_over : Exit → Bool
  is_over running = false
  is_over lost = true
  is_over closed = true
  is_over abandoned = true

  -- The outputs, and the flag `closed` of the handle
  unfoldable pub run_accepted_driver : Bool → List Turn → List Output × Bool
  unfolding drive
  run_accepted_driver heartbeat turns =
      let done = drive (fresh heartbeat) turns in (done.1 ++ farewell done.2, is_over done.2)
