-- ===== src/Transport/Driver/Mirror.antt =====
-- crates/utils/transport/src/transport.rs: what the loop over a socket does with the frames of both
-- sides, with a heartbeat or without.
use nexal.Prelude.{
  ◌≢◌, ℕ, Bool, true, false, ◌&&◌, Option, none, some, List, [], ◌∷◌, ◌++◌, ◌≡◌, refl, sym, ◌∙◌, ap,
  leb, arith, Bool-cases, inl, inr, append_assoc,
}
use nexal.Wire.Values.{Values}
use nexal.Transport.Frames.{FrameCodec, classify_ping_pong}
use nexal.Transport.Handle.{DriverCmd, send, start_heartbeat, stop_heartbeat, close}
use nexal.Transport.Driver.{
  HeartbeatOptions, frame, heartbeat_dead, disconnected, reconnected, Heartbeat, binary, closed,
  other, failed, ended, Turn, command, tick, expired, message, Output, wrote, pinged, ponged,
  closed_socket, event, Exit, running, lost, abandoned, on_command, on_tick, on_deadline, on_binary,
  turn, and_then, drive,
}

-- The outputs without the heartbeat's own, and without the close of the socket
abbrev plain_of : Output → List Output
plain_of (wrote b) = wrote b ∷ []
plain_of ponged = ponged ∷ []
plain_of pinged = []
plain_of closed_socket = []
plain_of (event heartbeat_dead) = []
plain_of (event (frame b)) = event (frame b) ∷ []
plain_of (event disconnected) = event disconnected ∷ []
plain_of (event reconnected) = event reconnected ∷ []

abbrev pub plain : List Output → List Output
plain [] = []
plain (o ∷ os) = plain_of o ++ plain os

module _ {Value : Type 0} ⦃values : Values Value⦄ (codec : FrameCodec Value) where
  abbrev answer : List ℕ → Option Bool → List Output
  answer bytes (some true) = ponged ∷ []
  answer bytes (some false) = []
  answer bytes none = event (frame bytes) ∷ []

  -- What a turn asks for, without a look at the state: a frame of a client is written, a ping is
  -- answered, and any other frame is passed on.
  abbrev pub echo : Turn → List Output
  echo (command (some (send bytes)) sent) = wrote bytes ∷ []
  echo (command (some start_heartbeat) sent) = []
  echo (command (some stop_heartbeat) sent) = []
  echo (command (some close) sent) = []
  echo (command none sent) = []
  echo (tick now sent) = []
  echo (expired now) = []
  echo (message (binary bytes) sent received) = answer bytes (classify_ping_pong codec bytes)
  echo (message closed sent received) = []
  echo (message other sent received) = []
  echo (message failed sent received) = []
  echo (message ended sent received) = []

  abbrev pub echoes : List Turn → List Output
  echoes [] = []
  echoes (t ∷ ts) = echo t ++ echoes ts

pub plain-append : (os ps : List Output) → plain (os ++ ps) ≡ plain os ++ plain ps
plain-append [] ps = refl
plain-append (o ∷ os) ps =
    ap (λ l. plain_of o ++ l) (plain-append os ps)
    ∙ sym (append_assoc (plain_of o) (plain os) (plain ps))

-- Where a run was left: after `done` the loop still ran, and it ended in the turn behind them, if
-- there is one.
abbrev pub IsLeft : (List Turn → Exit) → List Turn → List Turn → Exit → Type 0
IsLeft exit_of done [] exit = (exit ≡ running) × (exit_of done ≡ running)
IsLeft exit_of done (t ∷ rest) exit =
    (exit ≢ running) × (exit_of done ≡ running) × (exit_of (done ++ t ∷ []) ≡ exit)

-- The turns that the loop has done, and those that it has not
pub record Parts (asked : List Turn → List Output) (exit_of : List Turn → Exit) (ts : List Turn)
    (outs : List Output) (exit : Exit) : Type 0 where
  pub done : List Turn
  pub rest : List Turn
  pub split : ts ≡ done ++ rest
  pub mirrored : plain outs ≡ asked done
  pub left : IsLeft exit_of done rest exit

module _ {Value : Type 0} ⦃values : Values Value⦄ (codec : FrameCodec Value)
    (opts : HeartbeatOptions) where
  -- A turn that goes on does all that was asked, and one that leaves the loop nothing of it.
  abbrev TurnMirrors : List Output → Heartbeat × List Output × Exit → Type 0
  TurnMirrors asked (hb, outs, running) = plain outs ≡ asked
  TurnMirrors asked (hb, outs, lost) = plain outs ≡ []
  TurnMirrors asked (hb, outs, Exit.closed) = plain outs ≡ []
  TurnMirrors asked (hb, outs, abandoned) = plain outs ≡ []

  on_command-TurnMirrors :
      (hb : Heartbeat) (cmd : Option DriverCmd) (sent : Bool)
      → TurnMirrors (echo codec (command cmd sent)) (on_command codec opts hb cmd sent)
  unfolding on_command
  on_command-TurnMirrors hb (some (send bytes)) true = refl
  on_command-TurnMirrors hb (some (send bytes)) false = refl
  on_command-TurnMirrors hb (some start_heartbeat) sent = refl
  on_command-TurnMirrors hb (some stop_heartbeat) sent = refl
  on_command-TurnMirrors hb (some close) sent = refl
  on_command-TurnMirrors hb none sent = refl

  on_tick-TurnMirrors :
      (hb : Heartbeat) (now : ℕ) (sent : Bool) → TurnMirrors [] (on_tick codec opts hb now sent)
  unfolding on_tick
  on_tick-TurnMirrors hb now true = elim (Bool-cases (hb.enabled && hb.ticking)) [
    | inl on ↦ simp on refl
    | inr off ↦ simp off refl
  ]
  on_tick-TurnMirrors hb now false = elim (Bool-cases (hb.enabled && hb.ticking)) [
    | inl on ↦ simp on refl
    | inr off ↦ simp off refl
  ]

  on_deadline-TurnMirrors :
      (hb : Heartbeat) (deadline : Option ℕ) (now : ℕ)
      → TurnMirrors [] (on_deadline codec opts hb deadline now)
  unfolding on_deadline
  on_deadline-TurnMirrors hb none now = refl
  on_deadline-TurnMirrors hb (some deadline) now = elim (Bool-cases (leb deadline now)) [
    | inl due ↦ simp due refl
    | inr early ↦ simp early refl
  ]

  on_binary-TurnMirrors :
      (hb : Heartbeat) (bytes : List ℕ) (kind : Option Bool) (sent received : Bool)
      → TurnMirrors (answer codec bytes kind) (on_binary codec opts hb bytes kind sent received)
  unfolding on_binary
  on_binary-TurnMirrors hb bytes (some true) true received = refl
  on_binary-TurnMirrors hb bytes (some true) false received = refl
  on_binary-TurnMirrors hb bytes (some false) sent received = refl
  on_binary-TurnMirrors hb bytes none sent true = refl
  on_binary-TurnMirrors hb bytes none sent false = refl

  turn-TurnMirrors : (hb : Heartbeat) (t : Turn) → TurnMirrors (echo codec t) (turn codec opts hb t)
  unfolding turn
  turn-TurnMirrors hb (command cmd sent) = on_command-TurnMirrors hb cmd sent
  turn-TurnMirrors hb (tick now sent) = on_tick-TurnMirrors hb now sent
  turn-TurnMirrors hb (expired now) = on_deadline-TurnMirrors hb hb.deadline now
  turn-TurnMirrors hb (message (binary bytes) sent received) =
      on_binary-TurnMirrors hb bytes (classify_ping_pong codec bytes) sent received
  turn-TurnMirrors hb (message closed sent received) = refl
  turn-TurnMirrors hb (message other sent received) = refl
  turn-TurnMirrors hb (message failed sent received) = refl
  turn-TurnMirrors hb (message ended sent received) = refl

  -- The exit of the loop over some turns
  abbrev pub exit_after : Heartbeat → List Turn → Exit
  exit_after hb ts = (drive codec opts hb ts).2

  abbrev DriveParts : Heartbeat → List Turn → Heartbeat × List Output × Exit → Type 0
  DriveParts hb ts (hb', outs, exit) = Parts (echoes codec) (exit_after hb) ts outs exit

  exit_after-cons :
      (hb hb' : Heartbeat) (outs : List Output) (t : Turn) (ts : List Turn)
      → turn codec opts hb t ≡ (hb', outs, running)
      → exit_after hb (t ∷ ts) ≡ exit_after hb' ts
  unfolding drive and_then
  exit_after-cons hb hb' outs t ts e =
      ap (λ r. (and_then codec opts r (drive codec opts r.0 ts)).2) e

  IsLeft-cons :
      (hb hb' : Heartbeat) (outs : List Output) (t : Turn) (done rest : List Turn) (exit : Exit)
      → turn codec opts hb t ≡ (hb', outs, running)
      → IsLeft (exit_after hb') done rest exit
      → IsLeft (exit_after hb) (t ∷ done) rest exit
  IsLeft-cons hb hb' outs t done [] exit e left =
      (left.0, exit_after-cons hb hb' outs t done e ∙ left.1)
  IsLeft-cons hb hb' outs t done (t' ∷ rest) exit e left = (
    left.0,
    exit_after-cons hb hb' outs t done e ∙ left.1,
    exit_after-cons hb hb' outs t (done ++ t' ∷ []) e ∙ left.2,
  )

  -- A turn that leaves the loop
  leaving :
      (hb hb' : Heartbeat) (outs : List Output) (t : Turn) (ts : List Turn) (exit : Exit)
      → exit ≢ running
      → exit_after hb (t ∷ []) ≡ exit
      → plain outs ≡ []
      → DriveParts hb (t ∷ ts) (hb', outs, exit)
  unfolding drive
  leaving hb hb' outs t ts exit over e h = record {
    done = [];
    rest = t ∷ ts;
    split = refl;
    mirrored = h;
    left = (over, refl, e);
  }

  and_then-Parts :
      (hb : Heartbeat) (t : Turn) (ts : List Turn) (r : Heartbeat × List Output × Exit)
      → turn codec opts hb t ≡ r
      → TurnMirrors (echo codec t) r
      → DriveParts r.0 ts (drive codec opts r.0 ts)
      → DriveParts hb (t ∷ ts) (and_then codec opts r (drive codec opts r.0 ts))
  unfolding drive and_then
  and_then-Parts hb t ts (hb', outs, running) e h parts = record {
    done = t ∷ parts.done;
    rest = parts.rest;
    split = ap (λ l. t ∷ l) parts.split;
    mirrored =
        plain-append outs (drive codec opts hb' ts).1
        ∙ ap (λ l. l ++ plain (drive codec opts hb' ts).1) h
        ∙ ap (λ l. echo codec t ++ l) parts.mirrored;
    left = IsLeft-cons hb hb' outs t parts.done parts.rest _ e parts.left;
  }
  and_then-Parts hb t ts (hb', outs, lost) e h parts =
      leaving hb hb' outs t ts lost (λ q. ground arith)
        (ap (λ r. (and_then codec opts r (drive codec opts r.0 [])).2) e) h
  and_then-Parts hb t ts (hb', outs, Exit.closed) e h parts =
      leaving hb hb' outs t ts Exit.closed (λ q. ground arith)
        (ap (λ r. (and_then codec opts r (drive codec opts r.0 [])).2) e) h
  and_then-Parts hb t ts (hb', outs, abandoned) e h parts =
      leaving hb hb' outs t ts abandoned (λ q. ground arith)
        (ap (λ r. (and_then codec opts r (drive codec opts r.0 [])).2) e) h

  pub drive-Parts : (hb : Heartbeat) (ts : List Turn) → DriveParts hb ts (drive codec opts hb ts)
  unfolding drive
  drive-Parts hb [] = record {
    done = [];
    rest = [];
    split = refl;
    mirrored = refl;
    left = (refl, refl);
  }
  drive-Parts hb (t ∷ ts) =
      and_then-Parts hb t ts (turn codec opts hb t) refl (turn-TurnMirrors hb t)
        (drive-Parts (turn codec opts hb t).0 ts)
