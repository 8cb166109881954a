-- ===== src/Connection/Closing.antt =====
-- crates/utils/transport/src/connection.rs: the end of a connection answers what waits on the
-- connection itself and on its open streams.
use nexal.Prelude.{
  ℕ, zero, suc, ◌≤◌, String, string_eq, nat_eq, ◌==◌, true, false, Option, none, some, List, [],
  ◌∷◌, ◌≡◌, refl, ap, arith, Bool-cases, inl, inr,
}
use nexal.Prelude.Map
use nexal.Prelude.Map.{Map}
use nexal.Wire.Values.{Values}
use nexal.Connection.Envelope.{WireCodec}
use nexal.Connection.Channel.{ChannelState, reject_all_pending, reject_pending}
use nexal.Connection.Store.{at, reject_each}
use nexal.Connection.{Connection, Stream, disconnected, reject_all, close}
use nexal.Connection.Frames.{on_event}
use nexal.Connection.Answering.{
  count, keys, resolved, resolved-append, count-append, reject_pending-resolved,
}
use nexal.Connection.Requests.{Step, receiving, closing, step, run, IsFair, run-answers_once}

-- What waits at a place of the store
unfoldable pub pending_at : List ChannelState → ℕ → Map String (Unit {0})
pending_at [] place = []
pending_at (c ∷ cs) zero = c.pending
pending_at (c ∷ cs) (suc place) = pending_at cs place

-- What waits on the connection itself, or on a stream
abbrev pub pending_on : Connection → Option Stream → Map String (Unit {0})
pending_on conn none = conn.root.pending
pending_on conn (some s) = pending_at conn.channels s.state

abbrev pub IsOpen : Connection → Option Stream → Type 0
IsOpen conn none = Unit {0}
IsOpen conn (some s) = Map.get conn.streams s.id ≡ some s.state

get-tail :
    (id sid : String) (p : ℕ) (streams : Map String ℕ) (place : ℕ)
    → Map.get ((sid, p) ∷ streams) id ≡ some place
    → (p == place) ≡ false
    → Map.get streams id ≡ some place
unfolding Map.get
get-tail id sid p streams place h differs = ground (arith, h, differs)

module _ (Value Frame : Type 0) where
  at-rejects :
      (i reason : String) (cs : List ChannelState) (place : ℕ)
      → count i
          (resolved (at (reject_all_pending {Value = Value} {Frame = Frame} reason) cs place).1)
        ≡ count i (keys (pending_at cs place))
  unfolding at pending_at reject_all_pending
  at-rejects i reason [] place = refl
  at-rejects i reason (c ∷ cs) zero = reject_pending-resolved Value Frame i reason c.pending
  at-rejects i reason (c ∷ cs) (suc place) = at-rejects i reason cs place

  at-others :
      (reason : String) (cs : List ChannelState) (place other : ℕ)
      → (place == other) ≡ false
      → pending_at (at (reject_all_pending {Value = Value} {Frame = Frame} reason) cs place).0 other
        ≡ pending_at cs other
  unfolding at pending_at
  at-others reason [] place other h = refl
  at-others reason (c ∷ cs) zero zero h = ground (arith, h)
  at-others reason (c ∷ cs) zero (suc other) h = refl
  at-others reason (c ∷ cs) (suc place) zero h = refl
  at-others reason (c ∷ cs) (suc place) (suc other) h =
      at-others reason cs place other (ground (arith, h))

  reject_each-answers :
      (i reason id : String) (cs : List ChannelState) (streams : Map String ℕ) (place : ℕ)
      → Map.get streams id ≡ some place
      → count i (keys (pending_at cs place))
        ≤ count i (resolved (reject_each {Value = Value} {Frame = Frame} reason cs streams).1)
  unfolding reject_each Map.get
  reject_each-answers i reason id cs [] place h = ground (arith, h)
  reject_each-answers i reason id cs ((sid, p) ∷ streams) place h =
      let op = reject_all_pending {Value = Value} {Frame = Frame} reason in
      let one = at op cs p in
      let first = at-rejects i reason cs p in
      rw (resolved-append i one.1 (reject_each reason one.0 streams).1)
        (elim (Bool-cases (p == place)) [
          | inl same ↦ ground (arith, first, same)
          | inr differs ↦
              let later =
                reject_each-answers i reason id one.0 streams place
                  (get-tail id sid p streams place h differs) in
              let same = ap (λ m. count i (keys m)) (at-others reason cs p place differs) in
              omega (arith, later, same)
        ])

  reject_all-answers :
      (i reason : String) (conn : Connection) (side : Option Stream)
      → IsOpen conn side
      → count i (keys (pending_on conn side))
        ≤ count i (resolved (reject_all {Value = Value} {Frame = Frame} reason conn).1)
  unfolding reject_all reject_all_pending
  reject_all-answers i reason conn none open' =
      rw
        (resolved-append i (reject_pending {Value = Value} {Frame = Frame} reason conn.root.pending)
          (reject_each reason conn.channels conn.streams).1)
        (ground (arith, reject_pending-resolved Value Frame i reason conn.root.pending))
  reject_all-answers i reason conn (some s) open' =
      rw
        (resolved-append i (reject_pending {Value = Value} {Frame = Frame} reason conn.root.pending)
          (reject_each reason conn.channels conn.streams).1)
        (ground (arith, reject_each-answers i reason s.id conn.channels conn.streams s.state open'))

module _ {Value Frame : Type 0} ⦃values : Values Value⦄ (codec : WireCodec Value Frame) where
  closed-answers :
      (steps : List (Step Value Frame)) (i : String) (side : Option Stream)
      → IsOpen (run codec steps).0 side
      → 1 ≤ count i (keys (pending_on (run codec steps).0 side))
      → 1 ≤ count i (run codec (closing ∷ steps)).1
  unfolding run step close
  closed-answers steps i side open' there =
      let before = run codec steps in
      rw
        (count-append i
          (resolved (reject_all {Value = Value} {Frame = Frame} "connection closed" before.0).1)
          before.1)
        (omega
          (arith, there, reject_all-answers Value Frame i "connection closed" before.0 side open'))

  lost-answers :
      (steps : List (Step Value Frame)) (i : String) (side : Option Stream)
      → IsOpen (run codec steps).0 side
      → 1 ≤ count i (keys (pending_on (run codec steps).0 side))
      → (run codec steps).0.pumping ≡ true
      → 1 ≤ count i (run codec (receiving disconnected ∷ steps)).1
  unfolding run step on_event reject_all
  lost-answers steps i side open' there on =
      let before = run codec steps in
      simp on (
        rw
          (count-append i
            (resolved (reject_all {Value = Value} {Frame = Frame} "disconnected" before.0).1)
            before.1)
          (omega
            (arith, there, reject_all-answers Value Frame i "disconnected" before.0 side open')))

-- As long as the events are taken, a request that waits on the connection or on an open stream has
-- its one answer when `close` is called, and also when the transport is lost, where ids are new and
-- requests are made on the connection or on streams that were opened.
pub closing-answers_all :
    {Value Frame : Type 0} ⦃values : Values Value⦄ (codec : WireCodec Value Frame)
    (steps : List (Step Value Frame)) (i : String) (side : Option Stream)
    → IsFair codec steps
    → IsOpen (run codec steps).0 side
    → 1 ≤ count i (keys (pending_on (run codec steps).0 side))
    → (run codec steps).0.pumping ≡ true
    → (count i (run codec (closing ∷ steps)).1 ≡ 1)
      × (count i (run codec (receiving disconnected ∷ steps)).1 ≡ 1)
closing-answers_all codec steps i side fair open' there on = (
  omega (
    arith,
    (run-answers_once codec (closing ∷ steps) i fair).0,
    (run-answers_once codec (closing ∷ steps) i fair).1,
    closed-answers codec steps i side open' there,
  ),
  omega (
    arith,
    (run-answers_once codec (receiving disconnected ∷ steps) i fair).0,
    (run-answers_once codec (receiving disconnected ∷ steps) i fair).1,
    lost-answers codec steps i side open' there on,
  ),
)
