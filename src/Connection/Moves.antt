-- ===== src/Connection/Moves.antt =====
-- crates/utils/transport/src/connection.rs: what a call or an event does to the requests that
-- wait on a connection.
use nexal.Prelude.{
  ℕ, zero, suc, ◌+◌, ◌≤◌, ◌<◌, String, string_eq, false, Option, none, some, List, [], ◌∷◌, ◌≡◌,
  refl, ap, arith, length,
}
use nexal.Prelude.Map
use nexal.Prelude.Map.{Map}
use nexal.Wire.Values.{Values}
use nexal.Connection.Envelope.{WireMessage, WireCodec, value_to_wire_message}
use nexal.Connection.Channel.{ChannelState, fresh_channel, Effect, dispatch, reject_all_pending}
use nexal.Connection.Store.{at, reject_each}
use nexal.Connection.{
  Connection, new, Stream, Arrival, arrived, disconnected, passed_over, place_of, on_channel,
  reject_all, open_stream, on, handle_request, close_stream, close, reject_removed, subscribe,
  register,
}
use nexal.Connection.Frames.{
  route, routed, routed_message, handle_decoded, stream_tag, handle_frame, on_event,
}
use nexal.Connection.Answering.{
  count, keys, resolved, resolved-append, waits, waits-append, at-answers,
  reject_all_pending-Balanced, reject_each-waits, dispatch-Balanced, Balanced,
}

-- How often a request waits, over all channels
unfoldable pub waiting : String → Connection → ℕ
waiting i conn = count i (keys conn.root.pending) + waits i conn.channels

pub new-waiting : (i : String) → waiting i new + 0 ≡ 0
unfolding waiting waits
new-waiting i = refl

pub opening-waiting :
    (i id : String) (conn : Connection) (place : Option ℕ)
    → waiting i (open_stream conn id place).0 ≡ waiting i conn
unfolding open_stream waiting waits
opening-waiting i id conn (some place) = refl
opening-waiting i id conn none = ground (arith, waits-append i conn.channels (fresh_channel ∷ []))

-- A handle of a stream that was opened
abbrev pub IsHandle : Connection → Option Stream → Type 0
IsHandle conn none = Unit {0}
IsHandle conn (some s) = s.state < length conn.channels

module _ {E : Type 0} where
  -- An operation on the state alone
  at-adds :
      (i : String) (more : ℕ) (op : ChannelState → ChannelState × List E) (cs : List ChannelState)
      (place : ℕ)
      → place < length cs
      → ((c : ChannelState)
          → count i (keys c.pending) ≤ waits i cs
          → count i (keys (op c).0.pending) ≡ count i (keys c.pending) + more)
      → waits i (at op cs place).0 ≡ waits i cs + more
  unfolding at waits
  at-adds i more op [] place h adds = ground (arith, h)
  at-adds i more op (c ∷ cs) zero h adds = ground (arith, adds c (omega arith))
  at-adds i more op (c ∷ cs) (suc place) h adds =
      ground (
        arith,
        at-adds i more op cs place (ground (arith, h)) (λ d le. adds d (ground (arith, le))),
      )

  at-keeps :
      (i : String) (op : ChannelState → ChannelState × List E) (cs : List ChannelState) (place : ℕ)
      → ((c : ChannelState) → (op c).0.pending ≡ c.pending)
      → waits i (at op cs place).0 ≡ waits i cs
  unfolding at waits
  at-keeps i op [] place keeps = refl
  at-keeps i op (c ∷ cs) zero keeps = ap (λ p. count i (keys p) + waits i cs) (keeps c)
  at-keeps i op (c ∷ cs) (suc place) keeps = ground (arith, at-keeps i op cs place keeps)

  pub on_channel-adds :
      (i : String) (more : ℕ) (op : ChannelState → ChannelState × List E) (conn : Connection)
      (side : Option Stream)
      → IsHandle conn side
      → ((c : ChannelState)
          → count i (keys c.pending) ≤ waiting i conn
          → count i (keys (op c).0.pending) ≡ count i (keys c.pending) + more)
      → waiting i (on_channel op conn (place_of side)).0 ≡ waiting i conn + more
  unfolding on_channel waiting
  on_channel-adds i more op conn none handle adds = ground (arith, adds conn.root (omega arith))
  on_channel-adds i more op conn (some s) handle adds =
      ground (
        arith,
        at-adds i more op conn.channels s.state handle (λ c le. adds c (ground (arith, le))),
      )

  pub on_channel-keeps :
      (i : String) (op : ChannelState → ChannelState × List E) (conn : Connection)
      (place : Option ℕ)
      → ((c : ChannelState) → (op c).0.pending ≡ c.pending)
      → waiting i (on_channel op conn place).0 ≡ waiting i conn
  unfolding on_channel waiting
  on_channel-keeps i op conn none keeps =
      ap (λ p. count i (keys p) + waits i conn.channels) (keeps conn.root)
  on_channel-keeps i op conn (some place) keeps =
      ground (arith, at-keeps i op conn.channels place keeps)

pub on-waiting :
    (i : String) (conn : Connection) (side : Option Stream) (method : String) (handler : ℕ)
    → waiting i (on conn side method handler) ≡ waiting i conn
unfolding on subscribe
on-waiting i conn side method handler =
    on_channel-keeps i (subscribe method handler) conn (place_of side) (λ c. refl)

pub handle_request-waiting :
    (i : String) (conn : Connection) (side : Option Stream) (method : String) (handler : ℕ)
    → waiting i (handle_request conn side method handler) ≡ waiting i conn
unfolding handle_request register
handle_request-waiting i conn side method handler =
    on_channel-keeps i (register method handler) conn (place_of side) (λ c. refl)

module _ {Value Frame : Type 0} where
  -- A call that issues nothing moves requests from waiting to answered.
  unfoldable pub Moves : String → ℕ → Connection → Connection × List (Effect Value Frame) → Type 0
  Moves i more before after =
      waiting i after.0 + count i (resolved after.1) ≡ waiting i before + more

  pub on_channel-answers :
      (i : String) (op : ChannelState → ChannelState × List (Effect Value Frame))
      (conn : Connection) (place : Option ℕ)
      → ((c : ChannelState) → count i (keys c.pending) ≤ waiting i conn → Balanced i 0 c (op c))
      → Moves i 0 conn (on_channel op conn place)
  unfolding on_channel Moves waiting Balanced
  on_channel-answers i op conn none balanced = ground (arith, balanced conn.root (omega arith))
  on_channel-answers i op conn (some place) balanced =
      ground (arith, at-answers i op conn.channels place (λ c le. balanced c (ground (arith, le))))

module _ (Value Frame : Type 0) where
  pub reject_all-Moves :
      (i reason : String) (conn : Connection)
      → Moves i 0 conn (reject_all {Value = Value} {Frame = Frame} reason conn)
  unfolding reject_all Moves waiting Balanced
  reject_all-Moves i reason conn =
      rw
        (resolved-append i (reject_all_pending {Value = Value} {Frame = Frame} reason conn.root).1
          (reject_each {Value = Value} {Frame = Frame} reason conn.channels conn.streams).1)
        (ground (
          arith,
          reject_all_pending-Balanced Value Frame i reason conn.root,
          reject_each-waits Value Frame i reason conn.channels conn.streams,
        ))

  reject_removed-Moves :
      (i : String) (conn : Connection) (place : Option ℕ)
      → Moves {Value = Value} {Frame = Frame} i 0 conn (reject_removed conn place)
  unfolding reject_removed Moves
  reject_removed-Moves i conn none = omega arith
  reject_removed-Moves i conn (some place) =
      on_channel-answers i (reject_all_pending "stream closed") conn (some place)
        (λ c le. reject_all_pending-Balanced Value Frame i "stream closed" c)

  pub close_stream-Moves :
      (i id : String) (conn : Connection)
      → Moves i 0 conn (close_stream {Value = Value} {Frame = Frame} conn id)
  unfolding close_stream Moves waiting
  close_stream-Moves i id conn =
      reject_removed-Moves i (record conn { streams = Map.remove conn.streams id })
        (Map.get conn.streams id)

  pub close-Moves :
      (i : String) (conn : Connection) → Moves {Value = Value} {Frame = Frame} i 0 conn (close conn)
  unfolding close Moves waiting
  close-Moves i conn = ground (arith, reject_all-Moves i "connection closed" conn)

module _ {Value Frame : Type 0} ⦃values : Values Value⦄ (codec : WireCodec Value Frame) where
  routed-Moves :
      (i : String) (conn : Connection) (place : Option ℕ) (msg : WireMessage Value)
      → waiting i conn ≤ 1
      → Moves i 0 conn (routed codec conn place msg)
  unfolding routed Moves
  routed-Moves i conn none msg once = omega arith
  routed-Moves i conn (some place) msg once =
      on_channel-answers i (λ c. dispatch codec c msg) conn (some place)
        (λ c le. dispatch-Balanced codec i c msg (omega (arith, le, once)))

  route-Moves :
      (i : String) (conn : Connection) (tag : Option String) (msg : WireMessage Value)
      → waiting i conn ≤ 1
      → Moves i 0 conn (route codec conn tag msg)
  unfolding route
  route-Moves i conn none msg once =
      on_channel-answers i (λ c. dispatch codec c msg) conn none
        (λ c le. dispatch-Balanced codec i c msg (omega (arith, le, once)))
  route-Moves i conn (some id) msg once = routed-Moves i conn (Map.get conn.streams id) msg once

  routed_message-Moves :
      (i : String) (conn : Connection) (tag : Option String) (msg : Option (WireMessage Value))
      → waiting i conn ≤ 1
      → Moves i 0 conn (routed_message codec conn tag msg)
  unfolding routed_message Moves waiting
  routed_message-Moves i conn tag none once = omega arith
  routed_message-Moves i conn tag (some msg) once = route-Moves i conn tag msg once

  handle_decoded-Moves :
      (i : String) (conn : Connection) (value : Option Value)
      → waiting i conn ≤ 1
      → Moves i 0 conn (handle_decoded codec conn value)
  unfolding handle_decoded Moves
  handle_decoded-Moves i conn none once = omega arith
  handle_decoded-Moves i conn (some v) once =
      routed_message-Moves i conn (stream_tag codec (values.as_map v))
        (value_to_wire_message codec v) once

  pub on_event-Moves :
      (i : String) (conn : Connection) (event : Arrival Frame)
      → waiting i conn ≤ 1
      → Moves i 0 conn (on_event codec conn event)
  unfolding on_event handle_frame Moves waiting
  on_event-Moves i conn (arrived frame) once =
      ground (arith, handle_decoded-Moves i conn (codec.decode_frame frame) once)
  on_event-Moves i conn disconnected once =
      ground
        (arith, reject_all-Moves Value Frame i "disconnected" (record conn { pumping = false }))
  on_event-Moves i conn passed_over once = omega arith
