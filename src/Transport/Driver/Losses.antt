-- ===== src/Transport/Driver/Losses.antt =====
-- crates/utils/transport/src/transport.rs: how `run_accepted_driver` ends.
use nexal.Prelude.{
  ◌≢◌, ◌⊎◌, inl, inr, ℕ, ◌+◌, Bool, true, false, Option, none, some, List, [], ◌∷◌, ◌++◌, ◌≡◌, refl,
  ◌∙◌, ap, if◌then◌else◌, arith, ◌≤◌,
}
use nexal.Wire.Values.{Values}
use nexal.Transport.Frames.{FrameCodec, classify_ping_pong}
use nexal.Transport.Handle.{DriverCmd, send, start_heartbeat, stop_heartbeat, close}
use nexal.Transport.Driver.{
  HeartbeatOptions, frame, heartbeat_dead, disconnected, reconnected, Heartbeat, fresh, binary,
  closed, other, failed, ended, Turn, command, tick, expired, message, Output, wrote, pinged,
  ponged, closed_socket, event, Exit, running, lost, abandoned, on_command, on_tick, on_deadline,
  on_binary, turn, and_then, drive, farewell, is_over, run_accepted_driver,
}
use nexal.Transport.Driver.Mirror.{plain, plain-append, echoes, IsLeft, exit_after, drive-Parts}

abbrev pub is_loss : Output → Bool
is_loss (event disconnected) = true
is_loss (event heartbeat_dead) = false
is_loss (event (frame b)) = false
is_loss (event reconnected) = false
is_loss (wrote b) = false
is_loss pinged = false
is_loss ponged = false
is_loss closed_socket = false

abbrev pub losses : List Output → ℕ
losses [] = 0
losses (o ∷ os) = (if is_loss o then 1 else 0) + losses os

-- Nothing comes behind a `disconnected`.
abbrev pub EndsWithLoss : List Output → Type 0
EndsWithLoss [] = Unit {0}
EndsWithLoss (o ∷ os) = (is_loss o ≡ true → os ≡ []) × EndsWithLoss os

pub losses-append : (os ps : List Output) → losses (os ++ ps) ≡ losses os + losses ps
losses-append [] ps = omega arith
losses-append (o ∷ os) ps = ground (arith, losses-append os ps)

pub EndsWithLoss-append :
    (os ps : List Output) → losses os ≡ 0 → EndsWithLoss ps → EndsWithLoss (os ++ ps)
EndsWithLoss-append [] ps h k = k
EndsWithLoss-append (o ∷ os) ps h k =
    ((λ loss. ground arith), EndsWithLoss-append os ps (ground arith) k)

module _ {Value : Type 0} ⦃values : Values Value⦄ (codec : FrameCodec Value)
    (opts : HeartbeatOptions) where
  on_binary-losses :
      (hb : Heartbeat) (bytes : List ℕ) (kind : Option Bool) (sent received : Bool)
      → losses (on_binary codec opts hb bytes kind sent received).1 ≡ 0
  unfolding on_binary
  on_binary-losses hb bytes (some true) sent received = ground arith
  on_binary-losses hb bytes (some false) sent received = refl
  on_binary-losses hb bytes none sent received = ground arith

  on_deadline-losses :
      (hb : Heartbeat) (deadline : Option ℕ) (now : ℕ)
      → losses (on_deadline codec opts hb deadline now).1 ≡ 0
  unfolding on_deadline
  on_deadline-losses hb none now = refl
  on_deadline-losses hb (some deadline) now = ground arith

  on_command-losses :
      (hb : Heartbeat) (cmd : Option DriverCmd) (sent : Bool)
      → losses (on_command codec opts hb cmd sent).1 ≡ 0
  unfolding on_command
  on_command-losses hb (some (send bytes)) sent = ground arith
  on_command-losses hb (some start_heartbeat) sent = refl
  on_command-losses hb (some stop_heartbeat) sent = refl
  on_command-losses hb (some close) sent = refl
  on_command-losses hb none sent = refl

  turn-losses : (hb : Heartbeat) (t : Turn) → losses (turn codec opts hb t).1 ≡ 0
  unfolding turn on_tick
  turn-losses hb (command cmd sent) = on_command-losses hb cmd sent
  turn-losses hb (tick now sent) = ground arith
  turn-losses hb (expired now) = on_deadline-losses hb hb.deadline now
  turn-losses hb (message (binary bytes) sent received) =
      on_binary-losses hb bytes (classify_ping_pong codec bytes) sent received
  turn-losses hb (message closed sent received) = refl
  turn-losses hb (message other sent received) = refl
  turn-losses hb (message failed sent received) = refl
  turn-losses hb (message ended sent received) = refl

  and_then-losses :
      (r s : Heartbeat × List Output × Exit)
      → losses r.1 ≡ 0
      → losses s.1 ≡ 0
      → losses (and_then codec opts r s).1 ≡ 0
  unfolding and_then
  and_then-losses (hb, outs, running) (hb', more, exit) h k =
      rw (losses-append outs more) (omega (arith, h, k))
  and_then-losses (hb, outs, lost) s h k = h
  and_then-losses (hb, outs, Exit.closed) s h k = h
  and_then-losses (hb, outs, abandoned) s h k = h

  pub drive-losses : (hb : Heartbeat) (ts : List Turn) → losses (drive codec opts hb ts).1 ≡ 0
  unfolding drive
  drive-losses hb [] = refl
  drive-losses hb (t ∷ ts) =
      and_then-losses (turn codec opts hb t) (drive codec opts (turn codec opts hb t).0 ts)
        (turn-losses hb t) (drive-losses (turn codec opts hb t).0 ts)

  abbrev pub is_lost : Exit → Bool
  is_lost lost = true
  is_lost running = false
  is_lost closed = false
  is_lost abandoned = false

  farewell-losses :
      (exit : Exit)
      → (losses (farewell codec opts exit) ≡ (if is_lost exit then 1 else 0))
        × EndsWithLoss (farewell codec opts exit)
        × (plain (farewell codec opts exit)
            ≡ (if is_lost exit then event disconnected ∷ [] else []))
  farewell-losses lost = (refl, ((λ h. refl), tt), refl)
  farewell-losses running = (refl, tt, refl)
  farewell-losses closed = (refl, tt, refl)
  farewell-losses abandoned = (refl, tt, refl)

  running-is_over :
      (exit : Exit) → is_over codec opts exit ≡ false → (exit ≡ running) × (is_lost exit ≡ false)
  running-is_over running h = (refl, refl)
  running-is_over lost h = ground arith
  running-is_over closed h = ground arith
  running-is_over abandoned h = ground arith

  over-leaving : (exit : Exit) → exit ≢ running → is_over codec opts exit ≡ true
  over-leaving running h = absurd (h refl)
  over-leaving lost h = refl
  over-leaving closed h = refl
  over-leaving abandoned h = refl

  farewell-cases :
      (exit : Exit)
      → (plain (farewell codec opts exit) ≡ [])
        ⊎ (plain (farewell codec opts exit) ≡ event disconnected ∷ [])
  farewell-cases running = inl refl
  farewell-cases lost = inr refl
  farewell-cases closed = inl refl
  farewell-cases abandoned = inl refl

-- The run over `done` is not over; either nothing is left, or the next turn ends it.
abbrev pub EndsBehind : (List Turn → Bool) → List Turn → List Turn → Bool → Type 0
EndsBehind over_of done [] over = (over ≡ false) × (over_of done ≡ false)
EndsBehind over_of done (t ∷ rest) over =
    (over ≡ true) × (over_of done ≡ false) × (over_of (done ++ t ∷ []) ≡ true)

module _ {Value : Type 0} ⦃values : Values Value⦄ (codec : FrameCodec Value)
    (opts : HeartbeatOptions) where
  abbrev pub over_after : Bool → List Turn → Bool
  over_after heartbeat ts = (run_accepted_driver codec opts heartbeat ts).1

  EndsBehind-IsLeft :
      (heartbeat : Bool) (done rest : List Turn) (exit : Exit)
      → IsLeft (exit_after codec opts (fresh heartbeat)) done rest exit
      → EndsBehind (over_after heartbeat) done rest (is_over codec opts exit)
  unfolding run_accepted_driver
  EndsBehind-IsLeft heartbeat done [] exit left =
      (ap (is_over codec opts) left.0, ap (is_over codec opts) left.1)
  EndsBehind-IsLeft heartbeat done (t ∷ rest) exit left =
      let over = over-leaving codec opts exit left.0 in
      (over, ap (is_over codec opts) left.1, ap (is_over codec opts) left.2 ∙ over)

-- The turns of a run are those that the loop has done and those that it was left before, and it is
-- the first of the latter that ends it, if there is one. Of the turns done, each frame of a client
-- has been written and each message of the peer answered or passed on, in order, whatever the
-- heartbeat does between, and of the others nothing; at most one `disconnected` comes besides, as
-- the last output, and none as long as the driver runs.
pub run_accepted_driver-Mirrors :
    {Value : Type 0} ⦃values : Values Value⦄ (codec : FrameCodec Value) (opts : HeartbeatOptions)
    (heartbeat : Bool) (ts : List Turn)
    → let (outs, over) = run_accepted_driver codec opts heartbeat ts in
      (done : List Turn) × (rest : List Turn) × (ending : List Output) × (ts ≡ done ++ rest)
      × EndsBehind (over_after codec opts heartbeat) done rest over
      × (plain outs ≡ echoes codec done ++ ending)
      × ((ending ≡ []) ⊎ (ending ≡ event disconnected ∷ []))
      × (over ≡ false → ending ≡ [])
      × EndsWithLoss outs
      × (losses outs ≤ 1)
unfolding run_accepted_driver
run_accepted_driver-Mirrors codec opts heartbeat ts =
    let made = drive codec opts (fresh heartbeat) ts in
    let none' = drive-losses codec opts (fresh heartbeat) ts in
    let ends = farewell-losses codec opts made.2 in
    let parts = drive-Parts codec opts (fresh heartbeat) ts in
    (
      parts.done,
      parts.rest,
      plain (farewell codec opts made.2),
      parts.split,
      EndsBehind-IsLeft codec opts heartbeat parts.done parts.rest made.2 parts.left,
      plain-append made.1 (farewell codec opts made.2)
          ∙ ap (λ l. l ++ plain (farewell codec opts made.2)) parts.mirrored,
      farewell-cases codec opts made.2,
      (λ over.
          ends.2
          ∙ ap (λ b. if b then event disconnected ∷ [] else [])
              (running-is_over codec opts made.2 over).1),
      EndsWithLoss-append made.1 (farewell codec opts made.2) none' ends.1,
      rw (losses-append made.1 (farewell codec opts made.2)) (ground (arith, none', ends.0)),
    )
