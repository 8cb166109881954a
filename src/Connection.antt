-- ===== src/Connection.antt =====
-- crates/utils/transport/src/connection.rs: the connection that carries many streams over one
-- transport. A handle of a stream shares its channel's state with the connection, so the states
-- stand in a store, and `streams` and the handles hold places in it.
pub mod Envelope
pub mod Channel
pub mod Store
pub mod Frames
pub mod Answering
pub mod Moves
pub mod Requests
pub mod Closing
pub mod Routing
pub mod RoundTrip
pub mod Isolation
mod Examples
use nexal.Prelude.{
  ℕ, String, string_eq, Bool, true, false, Option, none, some, List, [], ◌∷◌, ◌++◌, if◌then◌else◌,
  str_append, length,
}
use nexal.Prelude.Map
use nexal.Prelude.Map.{Map}
use nexal.Wire.Values.{Values, is_key}
use nexal.Connection.Envelope.{
  WireRequest, WireResponse, WireNotification, WireMessage, WireCodec, value_to_wire_message,
}
use nexal.Connection.Channel.{
  ChannelState, Effect, write, Answer, ok, err, failed, dispatch, reject_all_pending, fresh_channel,
}
use nexal.Connection.Store.{at, reject_each}

-- `closed` is the transport's flag, and `pumping` says that the task which takes the events runs.
pub record Connection : Type 0 where
  pub closed : Bool
  pub pumping : Bool
  pub root : ChannelState
  pub channels : List ChannelState
  pub streams : Map String ℕ

abbrev pub new : Connection
new = record { closed = false; pumping = true; root = fresh_channel; channels = []; streams = [] }

abbrev pub or_else : Option String → Option String → Option String
or_else none rest = rest
or_else (some s) rest = some s

-- The handle of a stream: its id, and the place of its channel's state
pub record Stream : Type 0 where
  pub id : String
  pub state : ℕ

-- A `TransportEvent`: the heartbeat's and the reconnection's are passed over.
pub data Arrival (Frame : Type 0) : Type 0 where
  arrived : Frame → Arrival Frame
  disconnected passed_over : Arrival Frame

-- The side that a call is made on: the connection itself, or a stream
abbrev pub place_of : Option Stream → Option ℕ
place_of none = none
place_of (some s) = some s.state

abbrev pub tag_of : Option Stream → Option String
tag_of none = none
tag_of (some s) = some s.id

unfoldable pub on_channel :
    {E : Type 0}
    → (ChannelState → ChannelState × List E)
    → Connection
    → Option ℕ
    → Connection × List E
unfolding at
on_channel op conn none = let done = op conn.root in (record conn { root = done.0 }, done.1)
on_channel op conn (some place) =
    let done = at op conn.channels place in (record conn { channels = done.0 }, done.1)

-- `or_insert_with`: a new state goes to the end of the store.
unfoldable pub open_stream : Connection → String → Option ℕ → Connection × Stream
open_stream conn id (some place) = (conn, record { id = id; state = place })
open_stream conn id none = (
  record conn {
    channels = conn.channels ++ fresh_channel ∷ [];
    streams = Map.insert conn.streams id (length conn.channels);
  },
  record { id = id; state = length conn.channels },
)

unfoldable pub stream : Connection → String → Connection × Stream
unfolding open_stream
stream conn id = open_stream conn id (Map.get conn.streams id)

pushed : Option (List ℕ) → ℕ → List ℕ
pushed none handler = handler ∷ []
pushed (some handlers) handler = handlers ++ handler ∷ []

unfoldable pub subscribe : String → ℕ → ChannelState → ChannelState × List (Unit {0})
unfolding pushed
subscribe method handler c =
    let handlers = pushed (Map.get c.notification_handlers method) handler in
    (record c { notification_handlers = Map.insert c.notification_handlers method handlers }, [])

unfoldable pub on : Connection → Option Stream → String → ℕ → Connection
unfolding on_channel subscribe
on conn side method handler = (on_channel (subscribe method handler) conn (place_of side)).0

unfoldable pub register : String → ℕ → ChannelState → ChannelState × List (Unit {0})
register method handler c =
    (record c { request_handlers = Map.insert c.request_handlers method handler }, [])

unfoldable pub handle_request : Connection → Option Stream → String → ℕ → Connection
unfolding on_channel register
handle_request conn side method handler =
    (on_channel (register method handler) conn (place_of side)).0

module _ {Value Frame : Type 0} where
  -- `Transport::send` of what was encoded, and nothing where that failed
  unfoldable pub transmit : Bool → Option Frame → List (Effect Value Frame)
  transmit closed none = []
  transmit closed (some frame) = if closed then [] else write frame ∷ []

  unfoldable pub transmit_request : Bool → Option Frame → List (Effect Value Frame)
  unfolding transmit
  transmit_request closed none = failed ∷ []
  transmit_request closed (some frame) = transmit closed (some frame)

  unfoldable pub reject_all : String → Connection → Connection × List (Effect Value Frame)
  unfolding reject_each
  reject_all reason conn =
      let root = reject_all_pending reason conn.root in
      let rest = reject_each reason conn.channels conn.streams in
      (record conn { root = root.0; channels = rest.0; streams = [] }, root.1 ++ rest.1)

  unfoldable pub reject_removed : Connection → Option ℕ → Connection × List (Effect Value Frame)
  reject_removed conn none = (conn, [])
  reject_removed conn (some place) =
      on_channel (reject_all_pending "stream closed") conn (some place)

  -- `Connection::close_stream`, and `Stream::close` with the task that it spawns
  unfoldable pub close_stream : Connection → String → Connection × List (Effect Value Frame)
  unfolding on_channel reject_removed
  close_stream conn id =
      reject_removed (record conn { streams = Map.remove conn.streams id })
        (Map.get conn.streams id)

  unfoldable pub close : Connection → Connection × List (Effect Value Frame)
  unfolding reject_all
  close conn =
      let done = reject_all "connection closed" conn in (record done.0 { closed = true }, done.1)
