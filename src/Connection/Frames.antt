-- ===== src/Connection/Frames.antt =====
-- crates/utils/transport/src/connection.rs: the frames that a connection sends, and the task that
-- takes the transport's events.
use nexal.Prelude.{ℕ, String, string_eq, false, Option, none, some, List, [], ◌∷◌, if◌then◌else◌}
use nexal.Prelude.Map
use nexal.Prelude.Map.{Map}
use nexal.Wire.Values.{Values, is_key}
use nexal.Connection.Envelope.{WireRequest, WireMessage, WireCodec, value_to_wire_message}
use nexal.Connection.Channel.{Effect, Answer, ok, err, dispatch}
use nexal.Connection.{
  Connection, or_else, Stream, Arrival, arrived, disconnected, passed_over, place_of, tag_of,
  on_channel, transmit, transmit_request, reject_all,
}

module _ {Value Frame : Type 0} ⦃values : Values Value⦄ (codec : WireCodec Value Frame) where
  -- `send_request` until it waits, with the random id as an argument
  unfoldable pub send_request :
      Connection
      → Option Stream
      → String
      → String
      → Option Value
      → Connection × List (Effect Value Frame)
  unfolding on_channel transmit_request
  send_request conn side id method params =
      let req : WireRequest Value = record {
        stream = tag_of side;
        id = values.string id;
        method = method;
        params = params;
      } in
      let waiting =
        on_channel {E = Unit {0}} (λ c. (record c { pending = Map.insert c.pending id tt }, []))
          conn (place_of side) in
      (waiting.0, transmit_request conn.closed (codec.encode_request req))

  unfoldable pub notify :
      Connection → Option Stream → String → Option Value → List (Effect Value Frame)
  unfolding transmit
  notify conn side method params = transmit conn.closed (
      codec.encode_notification (record { stream = tag_of side; method = method; params = params }))

  -- What a handler's task sends when the handler is done
  unfoldable pub send_response :
      Connection → Option String → Value → Answer Value → List (Effect Value Frame)
  unfolding transmit
  send_response conn stream id (ok value) = transmit conn.closed (
      codec.encode_response
        (record { stream = stream; id = id; result = some value; error = none }))
  send_response conn stream id (err error) = transmit conn.closed (
      codec.encode_response
        (record { stream = stream; id = id; result = none; error = some error }))

  -- The first entry `stream` whose value is a string
  unfoldable pub find_stream : List (Value × Value) → Option String
  find_stream [] = none
  find_stream ((k, v) ∷ pairs) =
      let rest = find_stream pairs in
      if is_key "stream" (values.as_str k) then or_else (values.as_str v) rest else rest

  unfoldable pub stream_tag : Option (List (Value × Value)) → Option String
  unfolding find_stream
  stream_tag none = none
  stream_tag (some pairs) = find_stream pairs

  unfoldable pub routed :
      Connection → Option ℕ → WireMessage Value → Connection × List (Effect Value Frame)
  unfolding on_channel
  routed conn none msg = (conn, [])
  routed conn (some place) msg = on_channel (λ c. dispatch codec c msg) conn (some place)

  -- The channel for a tag: there is none for a stream that is not open.
  unfoldable pub route :
      Connection → Option String → WireMessage Value → Connection × List (Effect Value Frame)
  unfolding on_channel routed
  route conn none msg = on_channel (λ c. dispatch codec c msg) conn none
  route conn (some id) msg = routed conn (Map.get conn.streams id) msg

  unfoldable pub routed_message :
      Connection
      → Option String
      → Option (WireMessage Value)
      → Connection × List (Effect Value Frame)
  routed_message conn tag none = (record conn { pumping = false }, [])
  routed_message conn tag (some msg) = route conn tag msg

  unfoldable pub handle_decoded : Connection → Option Value → Connection × List (Effect Value Frame)
  handle_decoded conn none = (conn, [])
  handle_decoded conn (some value) =
      routed_message conn (stream_tag (values.as_map value)) (value_to_wire_message codec value)

  -- Where `expect` fails in the envelope, the task that takes the events ends.
  unfoldable pub handle_frame : Connection → Frame → Connection × List (Effect Value Frame)
  unfolding route stream_tag routed_message handle_decoded
  handle_frame conn frame = handle_decoded conn (codec.decode_frame frame)

  -- The task that takes the transport's events, as long as a handle of the connection is held
  unfoldable pub on_event : Connection → Arrival Frame → Connection × List (Effect Value Frame)
  unfolding handle_frame reject_all
  on_event conn (arrived frame) = if conn.pumping then handle_frame conn frame else (conn, [])
  on_event conn disconnected =
      let done = reject_all "disconnected" (record conn { pumping = false }) in
      if conn.pumping then done else (conn, [])
  on_event conn passed_over = (conn, [])
