-- ===== src/Transport/Client.antt =====
-- crates/utils/transport/src/transport.rs: `run_client_driver` and `attempt_reconnect`. A phase of
-- the outer loop is the list of turns on one socket, or the rounds of the loop that dials again. The
-- delay of a round is an argument: it is computed in floating point.
pub mod Reconnecting
use nexal.Prelude.{
  ℕ, ◌+◌, add32, Bool, true, false, Option, none, some, List, [], ◌∷◌, ◌++◌, ◌≡◌, if◌then◌else◌,
  leb, is_some,
}
use nexal.Wire.Values.{Values}
use nexal.Transport.Frames.{FrameCodec}
use nexal.Transport.Handle.{DriverCmd, send, start_heartbeat, stop_heartbeat, close}
use nexal.Transport.Driver.{
  HeartbeatOptions, TransportEvent, disconnected, reconnected, Heartbeat, fresh, Turn, Output,
  event, Exit, running, lost, abandoned, drive, default_heartbeat,
}

pub record ReconnectOptions : Type 0 where
  pub attempts : Option ℕ
  pub min_delay : ℕ
  pub max_delay : ℕ

pub record TransportOptions : Type 0 where
  pub heartbeat : Option HeartbeatOptions
  pub reconnect : Option ReconnectOptions

-- How the `select!` of a round ends: by the delay, or by a command, which is missing when all
-- handles are gone.
pub data Wait : Type 0 where
  slept : Wait
  interrupted : Option DriverCmd → Wait

abbrev pub closes : Wait → Bool
closes slept = false
closes (interrupted none) = true
closes (interrupted (some close)) = true
closes (interrupted (some (send bytes))) = false
closes (interrupted (some start_heartbeat)) = false
closes (interrupted (some stop_heartbeat)) = false

-- A round of `attempt_reconnect`: its wait, and whether `dial_once` connects
pub record Round : Type 0 where
  pub wait : Wait
  pub dialled : Bool

-- `pending` says that the rounds are used up, and the loop goes on.
pub data ReconnectOutcome : Type 0 where
  connected closed gave_up pending : ReconnectOutcome

exhausted : Option ℕ → ℕ → Bool
exhausted none attempts = false
exhausted (some max_attempts) attempts = leb max_attempts attempts

-- The outcome, the counter of attempts, and how often a socket was dialled
unfoldable pub attempt_rounds : ReconnectOptions → ℕ → List Round → ReconnectOutcome × ℕ × ℕ
unfolding exhausted
attempt_rounds rc attempts [] =
    (if exhausted rc.attempts attempts then gave_up else pending, attempts, 0)
attempt_rounds rc attempts (round ∷ rounds) =
    let counted = add32 attempts 1 in
    let rest = attempt_rounds rc counted rounds in
    if exhausted rc.attempts attempts
    then (gave_up, attempts, 0)
    else if closes round.wait
    then (closed, counted, 0)
    else if round.dialled
    then (connected, 0, 1)
    else (rest.0, rest.1, 1 + rest.2)

unfoldable pub attempt_reconnect :
    Option ReconnectOptions → ℕ → List Round → ReconnectOutcome × ℕ × ℕ
unfolding attempt_rounds
attempt_reconnect none attempts rounds = (gave_up, attempts, 0)
attempt_reconnect (some rc) attempts rounds = attempt_rounds rc attempts rounds

-- What the driver meets: the turns on one socket, and then the rounds until the next
pub record Phase : Type 0 where
  pub turns : List Turn
  pub rounds : List Round

-- `enabled` is `hb_enabled`, which outlives a socket.
pub record Driver : Type 0 where
  pub enabled : Bool
  pub reconnect_attempts : ℕ
  pub closed : Bool
  pub ended : Bool

abbrev pub start : TransportOptions → Driver
start options = record {
  enabled = is_some options.heartbeat;
  reconnect_attempts = 0;
  closed = false;
  ended = false;
}

abbrev pub hb_opts : Option HeartbeatOptions → HeartbeatOptions
hb_opts none = default_heartbeat
hb_opts (some opts) = opts

-- After `attempt_reconnect`: the flag says whether the outer loop goes on with a new socket. When the
-- driver gives up, `closed` is not set.
unfoldable pub after_rounds : Driver → ReconnectOutcome × ℕ × ℕ → Driver × List Output × Bool
after_rounds d (connected, attempts, dials) =
    (record d { reconnect_attempts = attempts }, event reconnected ∷ [], true)
after_rounds d (closed, attempts, dials) =
    (record d { reconnect_attempts = attempts; closed = true; ended = true }, [], false)
after_rounds d (gave_up, attempts, dials) =
    (record d { reconnect_attempts = attempts; ended = true }, event disconnected ∷ [], false)
after_rounds d (pending, attempts, dials) = (record d { reconnect_attempts = attempts }, [], false)

-- Behind the loop over a socket
unfoldable pub after_socket :
    Option ReconnectOptions → Driver → Exit → List Round → Driver × List Output × Bool
unfolding after_rounds attempt_reconnect
after_socket reconnect d running rounds = (d, [], false)
after_socket reconnect d Exit.closed rounds = (record d { closed = true; ended = true }, [], false)
after_socket reconnect d abandoned rounds = (record d { closed = true; ended = true }, [], false)
after_socket none d lost rounds =
    (record d { closed = true; ended = true }, event disconnected ∷ [], false)
after_socket (some rc) d lost rounds =
    after_rounds d (attempt_reconnect (some rc) d.reconnect_attempts rounds)

module _ {Value : Type 0} ⦃values : Values Value⦄ (codec : FrameCodec Value)
    (options : TransportOptions) where
  unfoldable pub phase : Driver → Phase → Driver × List Output × Bool
  unfolding after_socket
  phase d p =
      let done = drive codec (hb_opts options.heartbeat) (fresh d.enabled) p.turns in
      let next =
        after_socket options.reconnect (record d { enabled = done.0.enabled }) done.2 p.rounds in
      (next.0, done.1 ++ next.1, next.2)

  unfoldable pub run_client_driver : Driver → List Phase → Driver × List Output
  unfolding phase
  run_client_driver d [] = (d, [])
  run_client_driver d (p ∷ ps) =
      let now = phase d p in
      let rest = run_client_driver now.0 ps in
      if now.2 then (rest.0, now.1 ++ rest.1) else (now.0, now.1)
