-- ===== src/Transport/Driver/Heartbeats.antt =====
-- crates/utils/transport/src/transport.rs: what a `HeartbeatDead` tells.
use nexal.Prelude.{ℕ, ◌+◌, Bool, true, false, Option, none, some, List, [], ◌∷◌, ◌≡◌, ◌⊎◌, not}
use nexal.Wire.Values.{Values}
use nexal.Transport.Frames.{FrameCodec, classify_ping_pong}
use nexal.Transport.Handle.{send, start_heartbeat, stop_heartbeat, close}
use nexal.Transport.Driver.{
  HeartbeatOptions, Heartbeat, binary, closed, other, failed, ended, Turn, command, tick, expired,
  message, turn,
}

module _ {Value : Type 0} ⦃values : Values Value⦄ (codec : FrameCodec Value)
    (opts : HeartbeatOptions) where
  -- The heartbeat after the turns, the newest first
  unfoldable pub after : Heartbeat → List Turn → Heartbeat
  after hb [] = hb
  after hb (t ∷ ts) = (turn codec opts (after hb ts) t).0

  abbrev is_pong : Option Bool → Bool
  is_pong (some b) = not b
  is_pong none = false

  -- Neither a pong nor a stop of the heartbeat
  abbrev pub is_quiet : Turn → Bool
  is_quiet (command (some (send bytes)) sent) = true
  is_quiet (command (some start_heartbeat) sent) = true
  is_quiet (command (some stop_heartbeat) sent) = false
  is_quiet (command (some close) sent) = true
  is_quiet (command none sent) = true
  is_quiet (tick now sent) = true
  is_quiet (expired now) = true
  is_quiet (message (binary bytes) sent received) = not (is_pong (classify_ping_pong codec bytes))
  is_quiet (message closed sent received) = true
  is_quiet (message other sent received) = true
  is_quiet (message failed sent received) = true
  is_quiet (message ended sent received) = true

  abbrev pub pinged_until : Turn → Option ℕ
  pinged_until (tick now true) = some (now + opts.timeout)
  pinged_until (tick now false) = none
  pinged_until (command cmd sent) = none
  pinged_until (expired now) = none
  pinged_until (message m sent received) = none

  -- A ping went out a timeout before `deadline`, and since then everything was quiet.
  abbrev pub Unanswered : ℕ → List Turn → Type 0
  Unanswered deadline [] = ⊥
  Unanswered deadline (t ∷ ts) =
      (pinged_until t ≡ some deadline) ⊎ ((is_quiet t ≡ true) × Unanswered deadline ts)

  -- What keeps the deadline: it stays while all is quiet, or a ping sets it.
  abbrev Keeps : Option ℕ → Turn → Option ℕ → Type 0
  Keeps before t (some d) = (pinged_until t ≡ some d) ⊎ ((is_quiet t ≡ true) × (before ≡ some d))
  Keeps before t none = Unit {0}
