-- ===== src/Connection/Requests.antt =====
-- crates/utils/transport/src/connection.rs: every run of a connection's calls and events, and what
-- becomes of its requests.
use nexal.Prelude.{
  ℕ, ◌+◌, ◌≤◌, String, string_eq, ◌===◌, eq_lem, Bool, Option, none, some, List, [], ◌∷◌, ◌++◌, ◌≡◌,
  refl, ap, sym, subst, if◌then◌else◌, arith,
}
use nexal.Prelude.Map
use nexal.Prelude.Map.{Map}
use nexal.Wire.Values.{Values}
use nexal.Connection.Envelope.{WireRequest, WireCodec}
use nexal.Connection.Channel.{Effect}
use nexal.Connection.{
  Connection, new, Stream, Arrival, tag_of, transmit, transmit_request, stream, on, handle_request,
  close_stream, close,
}
use nexal.Connection.Frames.{send_request, on_event}
use nexal.Connection.Answering.{count, resolved, count-append, insert-Balanced, Balanced}
use nexal.Connection.Moves.{
  waiting, new-waiting, opening-waiting, on-waiting, handle_request-waiting, close-Moves, IsHandle,
  Moves, on_channel-adds, close_stream-Moves, on_event-Moves,
}

pub data Step (Value Frame : Type 0) : Type 0 where
  opening : String → Step Value Frame
  requesting : Option Stream → String → String → Option Value → Step Value Frame
  subscribing handling : Option Stream → String → ℕ → Step Value Frame
  receiving : Arrival Frame → Step Value Frame
  closing_stream : String → Step Value Frame
  closing : Step Value Frame

abbrev pub issued : {Value Frame : Type 0} → List (Step Value Frame) → List String
issued [] = []
issued (requesting side id method params ∷ steps) = id ∷ issued steps
issued (opening id ∷ steps) = issued steps
issued (subscribing side method handler ∷ steps) = issued steps
issued (handling side method handler ∷ steps) = issued steps
issued (receiving event ∷ steps) = issued steps
issued (closing_stream id ∷ steps) = issued steps
issued (closing ∷ steps) = issued steps

module _ {Value Frame : Type 0} ⦃values : Values Value⦄ (codec : WireCodec Value Frame) where
  unfoldable pub step : Connection → Step Value Frame → Connection × List (Effect Value Frame)
  unfolding stream send_request on handle_request on_event close_stream close
  step conn (opening id) = ((stream conn id).0, [])
  step conn (requesting side id method params) = send_request codec conn side id method params
  step conn (subscribing side method handler) = (on conn side method handler, [])
  step conn (handling side method handler) = (handle_request conn side method handler, [])
  step conn (receiving event) = on_event codec conn event
  step conn (closing_stream id) = close_stream conn id
  step conn closing = close conn

  -- The connection, and all requests that were answered; the newest step stands first.
  unfoldable pub run : List (Step Value Frame) → Connection × List String
  unfolding step
  run [] = (new, [])
  run (s ∷ steps) =
      let before = run steps in let done = step before.0 s in (done.0, resolved done.1 ++ before.1)

  -- Each request takes a new id, and is made on the connection or on a stream that was opened.
  abbrev pub IsFair : List (Step Value Frame) → Type 0
  IsFair [] = Unit {0}
  IsFair (requesting side id method params ∷ steps) =
      (count id (issued steps) ≡ 0) × IsHandle (run steps).0 side × IsFair steps
  IsFair (opening id ∷ steps) = IsFair steps
  IsFair (subscribing side method handler ∷ steps) = IsFair steps
  IsFair (handling side method handler ∷ steps) = IsFair steps
  IsFair (receiving event ∷ steps) = IsFair steps
  IsFair (closing_stream id ∷ steps) = IsFair steps
  IsFair (closing ∷ steps) = IsFair steps

  issued-once :
      (i : String) (steps : List (Step Value Frame)) → IsFair steps → count i (issued steps) ≤ 1
  issued-once i [] fair = omega arith
  issued-once i (requesting side id method params ∷ steps) (new', handle, fair) =
      ground (arith, issued-once i steps fair, eq_lem i id, new')
  issued-once i (opening id ∷ steps) fair = issued-once i steps fair
  issued-once i (subscribing side method handler ∷ steps) fair = issued-once i steps fair
  issued-once i (handling side method handler ∷ steps) fair = issued-once i steps fair
  issued-once i (receiving event ∷ steps) fair = issued-once i steps fair
  issued-once i (closing_stream id ∷ steps) fair = issued-once i steps fair
  issued-once i (closing ∷ steps) fair = issued-once i steps fair

  transmitted :
      (closed : Bool) (frame : Option Frame)
      → resolved (transmit_request {Value = Value} closed frame) ≡ []
  unfolding transmit_request transmit
  transmitted closed none = refl
  transmitted closed (some frame) = ground arith

  requesting-Moves :
      (i : String) (conn : Connection) (side : Option Stream) (id method : String)
      (params : Option Value)
      → IsHandle conn side
      → waiting id conn ≡ 0
      → Moves i (if i === id then 1 else 0) conn (send_request codec conn side id method params)
  unfolding send_request Moves Balanced
  requesting-Moves i conn side id method params handle new' =
      let req : WireRequest Value = record {
        stream = tag_of side;
        id = values.string id;
        method = method;
        params = params;
      } in
      let more = if i === id then 1 else 0 in
      let added =
        on_channel-adds {E = Unit {0}} i more
          (λ c. (record c { pending = Map.insert c.pending id tt }, [])) conn side handle
          (λ c le. ground (
            arith,
            insert-Balanced Value Frame i id c
                (λ e. omega (arith, le, ap (λ j. waiting j conn) e, new')),
          )) in
      rw (transmitted conn.closed (codec.encode_request req)) (ground (arith, added))

  -- One step, from a connection on which each request waits at most once
  step-Moves :
      (i : String) (conn : Connection) (s : Step Value Frame) (steps : List (Step Value Frame))
      → waiting i conn ≤ 1
      → IsFair (s ∷ steps)
      → conn ≡ (run steps).0
      → ((id : String) → count id (issued steps) ≡ 0 → waiting id conn ≡ 0)
      → waiting i (step conn s).0 + count i (resolved (step conn s).1) + count i (issued steps)
        ≡ waiting i conn + count i (issued (s ∷ steps))
  unfolding step stream Moves
  step-Moves i conn (opening id) steps once fair e new' =
      ground (arith, opening-waiting i id conn (Map.get conn.streams id))
  step-Moves i conn (requesting side id method params) steps once (fresh', handle, fair) e new' =
      ground (
        arith,
        requesting-Moves i conn side id method params (subst (λ c. IsHandle c side) (sym e) handle)
            (new' id fresh'),
      )
  step-Moves i conn (subscribing side method handler) steps once fair e new' =
      ground (arith, on-waiting i conn side method handler)
  step-Moves i conn (handling side method handler) steps once fair e new' =
      ground (arith, handle_request-waiting i conn side method handler)
  step-Moves i conn (receiving event) steps once fair e new' =
      ground (arith, on_event-Moves codec i conn event once)
  step-Moves i conn (closing_stream id) steps once fair e new' =
      ground (arith, close_stream-Moves Value Frame i id conn)
  step-Moves i conn closing steps once fair e new' = ground (arith, close-Moves Value Frame i conn)

  IsFair-tail :
      (s : Step Value Frame) (steps : List (Step Value Frame)) → IsFair (s ∷ steps) → IsFair steps
  IsFair-tail (requesting side id method params) steps (new', handle, fair) = fair
  IsFair-tail (opening id) steps fair = fair
  IsFair-tail (subscribing side method handler) steps fair = fair
  IsFair-tail (handling side method handler) steps fair = fair
  IsFair-tail (receiving event) steps fair = fair
  IsFair-tail (closing_stream id) steps fair = fair
  IsFair-tail closing steps fair = fair

  run-balance :
      (steps : List (Step Value Frame)) (i : String)
      → IsFair steps
      → waiting i (run steps).0 + count i (run steps).1 ≡ count i (issued steps)
  unfolding run
  run-balance [] i fair = new-waiting i
  run-balance (s ∷ steps) i fair =
      let before = run steps in
      let tail = IsFair-tail s steps fair in
      let balance = run-balance steps i tail in
      let moved =
        step-Moves i before.0 s steps (omega (arith, balance, issued-once i steps tail)) fair refl
          (λ id none'. omega (arith, run-balance steps id tail, none')) in
      rw (count-append i (resolved (step before.0 s).1) before.1) (omega (arith, moved, balance))

-- However calls and events come, each request waits on exactly one channel or has had exactly one
-- answer, and nothing else waits or is answered, as long as ids are new and the handles that
-- requests are made on are of streams that were opened.
pub run-answers_once :
    {Value Frame : Type 0} ⦃values : Values Value⦄ (codec : WireCodec Value Frame)
    (steps : List (Step Value Frame)) (i : String)
    → IsFair codec steps
    → (waiting i (run codec steps).0 + count i (run codec steps).1 ≡ count i (issued steps))
      × (count i (issued steps) ≤ 1)
run-answers_once codec steps i fair =
    (run-balance codec steps i fair, issued-once codec i steps fair)
