-- ===== src/Transport/Client/Reconnecting.antt =====
-- crates/utils/transport/src/transport.rs: how often `attempt_reconnect` dials, and how the events
-- of `run_client_driver` end.
use nexal.Prelude.{
  ℕ, ◌+◌, ◌-◌, ◌≤◌, ◌<◌, add32, Bool, true, false, Option, none, some, List, [], ◌∷◌, ◌++◌, ◌≡◌,
  ◌≢◌, inl, inr, refl, leb, arith, Bool-cases, length,
}
use nexal.Wire.Values.{Values}
use nexal.Transport.Frames.{FrameCodec}
use nexal.Transport.Driver.{Output, Exit, running, lost, abandoned, drive, fresh}
use nexal.Transport.Driver.Losses.{
  losses, EndsWithLoss, losses-append, EndsWithLoss-append, drive-losses,
}
use nexal.Transport.Client.{
  ReconnectOptions, TransportOptions, closes, Round, ReconnectOutcome, connected, closed, gave_up,
  pending, exhausted, attempt_rounds, attempt_reconnect, Phase, Driver, hb_opts, after_rounds,
  after_socket, phase, run_client_driver,
}

-- Rounds that neither close nor connect
abbrev pub AllFail : List Round → Type 0
AllFail [] = Unit {0}
AllFail (r ∷ rs) = (closes r.wait ≡ false) × (r.dialled ≡ false) × AllFail rs

add32-suc : (a max_attempts : ℕ) → a < max_attempts → max_attempts < 4294967296 → add32 a 1 ≡ a + 1
add32-suc a m h k = omega arith

-- When every attempt fails, `attempt_reconnect` gives up after exactly the attempts that are left,
-- as long as the limit is a count of 32 bits.
pub rounds-give_up :
    (rc : ReconnectOptions) (attempts max_attempts : ℕ) (rounds : List Round)
    → rc.attempts ≡ some max_attempts
    → max_attempts < 4294967296
    → attempts ≤ max_attempts
    → max_attempts ≤ attempts + length rounds
    → AllFail rounds
    → attempt_rounds rc attempts rounds ≡ (gave_up, max_attempts, max_attempts - attempts)
unfolding attempt_rounds exhausted
rounds-give_up rc a m [] e small le enough fail = rw e (ground arith)
rounds-give_up rc a m (r ∷ rs) e small le enough (open', failed, fail) =
    elim (Bool-cases (leb m a)) [
      | inl full ↦ rw e (ground (arith, full))
      | inr room ↦
          let next = add32-suc a m (ground (arith, room)) small in
          let rest =
            rounds-give_up rc (a + 1) m rs e small (ground (arith, room)) (ground (arith, enough))
              fail in
          rw (e, next, rest, open', failed) (ground (arith, room))
    ]

-- With a limit of 32 bits that the attempts have not passed, and a round for each attempt that is
-- left, `attempt_reconnect` returns, whatever the rounds bring, and it dials at most as often as
-- attempts are left.
pub rounds-return :
    (rc : ReconnectOptions) (attempts max_attempts : ℕ) (rounds : List Round)
    → rc.attempts ≡ some max_attempts
    → max_attempts < 4294967296
    → attempts ≤ max_attempts
    → max_attempts ≤ attempts + length rounds
    → ((attempt_rounds rc attempts rounds).0 ≢ pending)
      × ((attempt_rounds rc attempts rounds).2 + attempts ≤ max_attempts)
unfolding attempt_rounds exhausted
rounds-return rc a m [] e small le enough = rw e (ground (arith, le, enough))
rounds-return rc a m (r ∷ rs) e small le enough = elim (Bool-cases (leb m a)) [
  | inl full ↦ rw e (ground (arith, full, le))
  | inr room ↦
      let next = add32-suc a m (ground (arith, room)) small in
      let rest =
        rounds-return rc (a + 1) m rs e small (ground (arith, room)) (ground (arith, enough)) in
      rw (e, next) (ground (arith, room, rest.0, rest.1))
]

-- What a phase tells when the driver goes on, and when it does not
Tells : Driver × List Output × Bool → Type 0
Tells (d, outs, true) = losses outs ≡ 0
Tells (d, outs, false) = EndsWithLoss outs × (losses outs ≤ 1)

rounds-Tells : (d : Driver) (r : ReconnectOutcome × ℕ × ℕ) → Tells (after_rounds d r)
unfolding after_rounds Tells
rounds-Tells d (connected, attempts, dials) = refl
rounds-Tells d (closed, attempts, dials) = (tt, ground arith)
rounds-Tells d (gave_up, attempts, dials) = (((λ h. refl), tt), ground arith)
rounds-Tells d (pending, attempts, dials) = (tt, ground arith)

socket-Tells :
    (reconnect : Option ReconnectOptions) (d : Driver) (exit : Exit) (rounds : List Round)
    → Tells (after_socket reconnect d exit rounds)
unfolding after_socket Tells
socket-Tells reconnect d running rounds = (tt, ground arith)
socket-Tells reconnect d Exit.closed rounds = (tt, ground arith)
socket-Tells reconnect d abandoned rounds = (tt, ground arith)
socket-Tells none d lost rounds = (((λ h. refl), tt), ground arith)
socket-Tells (some rc) d lost rounds =
    rounds-Tells d (attempt_reconnect (some rc) d.reconnect_attempts rounds)

behind-Tells :
    (d : Driver) (before outs : List Output) (more : Bool)
    → losses before ≡ 0
    → Tells (d, outs, more)
    → Tells (d, before ++ outs, more)
unfolding Tells
behind-Tells d before outs true h k = rw (losses-append before outs) (omega (arith, h, k))
behind-Tells d before outs false h k =
    (EndsWithLoss-append before outs h k.0, rw (losses-append before outs) (omega (arith, h, k.1)))

Tells-going : (r : Driver × List Output × Bool) → r.2 ≡ true → Tells r → losses r.1 ≡ 0
unfolding Tells
Tells-going (d, outs, true) e h = h
Tells-going (d, outs, false) e h = ground (arith, e)

Tells-over :
    (r : Driver × List Output × Bool) → r.2 ≡ false → Tells r → EndsWithLoss r.1 × (losses r.1 ≤ 1)
unfolding Tells
Tells-over (d, outs, false) e h = h
Tells-over (d, outs, true) e h = ground (arith, e)

-- A phase that goes on tells no loss, and another one at most one, as its last output.
abbrev Ending : List Output → Type 0
Ending outs = EndsWithLoss outs × (losses outs ≤ 1)

append-Ending : (os ps : List Output) → losses os ≡ 0 → Ending ps → Ending (os ++ ps)
append-Ending os ps h k =
    (EndsWithLoss-append os ps h k.0, rw (losses-append os ps) (omega (arith, h, k.1)))

module _ {Value : Type 0} ⦃values : Values Value⦄ (codec : FrameCodec Value)
    (options : TransportOptions) where
  phase-Tells : (d : Driver) (p : Phase) → Tells (phase codec options d p)
  unfolding phase
  phase-Tells d p =
      let done = drive codec (hb_opts options.heartbeat) (fresh d.enabled) p.turns in
      let d' = record d { enabled = done.0.enabled } in
      let next = after_socket options.reconnect d' done.2 p.rounds in
      behind-Tells next.0 done.1 next.1 next.2
        (drive-losses codec (hb_opts options.heartbeat) (fresh d.enabled) p.turns)
        (socket-Tells options.reconnect d' done.2 p.rounds)

-- However many sockets the client loses and dials again, it tells `disconnected` at most once, and
-- nothing after it.
pub run_client_driver-EndsWithLoss :
    {Value : Type 0} ⦃values : Values Value⦄ (codec : FrameCodec Value) (options : TransportOptions)
    (d : Driver) (phases : List Phase)
    → EndsWithLoss (run_client_driver codec options d phases).1
      × (losses (run_client_driver codec options d phases).1 ≤ 1)
unfolding run_client_driver
run_client_driver-EndsWithLoss codec options d [] = (tt, ground arith)
run_client_driver-EndsWithLoss codec options d (p ∷ ps) =
    let now = phase codec options d p in
    let rest = run_client_driver-EndsWithLoss codec options now.0 ps in
    elim (Bool-cases now.2) [
      | inl on ↦ simp on (
          append-Ending now.1 (run_client_driver codec options now.0 ps).1
            (Tells-going now on (phase-Tells codec options d p)) rest)
      | inr over ↦ simp over (Tells-over now over (phase-Tells codec options d p))
    ]
