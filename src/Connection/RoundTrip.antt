-- ===== src/Connection/RoundTrip.antt =====
-- crates/utils/transport/src/connection.rs: a request goes out on a side of one connection, is served
-- on that side of the other, and its response comes back.
use nexal.Prelude.{
  ℕ, String, string_eq, true, false, Option, none, some, [], ◌∷◌, ◌≡◌, refl, ap, sym, ◌∙◌,
  Bool-cases, inl, inr,
}
use nexal.Prelude.Map
use nexal.Prelude.Map.{Map, get-insert_self}
use nexal.Wire.Values.{Values, map_get}
use nexal.Connection.Envelope.{
  WireCodec, WireRequest, WireResponse, request, response, value_to_wire_message, as_request,
  as_response, present,
}
use nexal.Connection.Channel.{
  ChannelState, resolve, serve, write, ok, dispatch, id_to_key, id_text, nil_or, answer_of,
  call_one,
}
use nexal.Connection.{Connection, Stream, on_channel, tag_of, transmit, transmit_request}
use nexal.Connection.Closing.{IsOpen}
use nexal.Connection.Frames.{send_request, send_response, handle_frame}
use nexal.Connection.Routing.{channel_in, channel_of, at-effects, handled-effects}

abbrev waiting_for : String → ChannelState → ChannelState
waiting_for id c = record c { pending = Map.insert c.pending id tt }

waits-insert :
    (c : ChannelState) (id : String) → Map.contains_key (waiting_for id c).pending id ≡ true
unfolding Map.contains_key
waits-insert c id = simp (get-insert_self c.pending id tt) refl

module _ {Value Frame : Type 0} ⦃values : Values Value⦄ (codec : WireCodec Value Frame) where
  request-message :
      (v : Value) (r : WireRequest Value)
      → map_get v "id" ≡ some r.id
      → map_get v "method" ≡ some (values.string r.method)
      → codec.from_request v ≡ some r
      → value_to_wire_message codec v ≡ some (request r)
  unfolding value_to_wire_message as_request
  request-message v r id method shape = simp (id, method, shape) refl

  response-message :
      (v : Value) (r : WireResponse Value) (value : Value)
      → map_get v "id" ≡ some r.id
      → map_get v "method" ≡ none
      → map_get v "result" ≡ some value
      → codec.from_response v ≡ some r
      → value_to_wire_message codec v ≡ some (response r)
  unfolding value_to_wire_message as_response
  response-message v r value id method result shape = simp (id, method, result, shape) refl

  nil_or-present : (o : Option Value) → nil_or (present codec.is_nil o) ≡ nil_or o
  unfolding nil_or
  nil_or-present none = refl
  nil_or-present (some v) = elim (Bool-cases (codec.is_nil v)) [
    | inl nothing ↦ simp nothing (sym (codec.is_nil-nil v nothing))
    | inr something ↦ simp something refl
  ]

  -- The frame of a request calls the handler that its channel has for the method.
  request-served :
      (conn : Connection) (r : WireRequest Value) (frame : Frame) (c : ChannelState) (handler : ℕ)
      → codec.encode_request r ≡ some frame
      → channel_of conn r.stream ≡ some c
      → Map.get c.request_handlers r.method ≡ some handler
      → (handle_frame codec conn frame).1 ≡ serve handler r.stream r.id (nil_or r.params) ∷ []
  unfolding dispatch call_one
  request-served conn r frame c handler encoded there known =
      let (v, decoded, stream, id, method, shape) = codec.request_lem r frame encoded in
      let read : WireRequest Value = record r { params = present codec.is_nil r.params } in
      handled-effects codec conn frame v r.stream (request read) c decoded stream
        (request-message v read id method shape) there
      ∙ simp (known, nil_or-present r.params) refl

  -- The frame of a response with a result gives it to the request that waits for it.
  response-resolves :
      (conn : Connection) (tag : Option String) (id : String) (value : Value) (frame : Frame)
      (c : ChannelState)
      → codec.encode_response
          (record { stream = tag; id = values.string id; result = some value; error = none })
        ≡ some frame
      → channel_of conn tag ≡ some c
      → Map.contains_key c.pending id ≡ true
      → (handle_frame codec conn frame).1 ≡ resolve id (ok value) ∷ []
  unfolding dispatch id_to_key id_text answer_of
  response-resolves conn tag id value frame c encoded there waits =
      let r : WireResponse Value = record {
        stream = tag;
        id = values.string id;
        result = some value;
        error = none;
      } in
      let (v, decoded, stream, id', method, result, error, shape) =
        codec.response_lem r frame encoded in
      let read : WireResponse Value = record r { result = present codec.is_nil (some value) } in
      handled-effects codec conn frame v tag (response read) c decoded stream
        (response-message v read value id' method result shape) there
      ∙ simp (values.as_str-string id, waits, nil_or-present (some value)) refl

  after-request :
      (conn : Connection) (side : Option Stream) (id method : String) (params : Option Value)
      (c : ChannelState)
      → IsOpen conn side
      → channel_of conn (tag_of side) ≡ some c
      → channel_of (send_request codec conn side id method params).0 (tag_of side)
        ≡ some (waiting_for id c)
  unfolding send_request on_channel
  after-request conn none id method params c open' there = cc there
  after-request conn (some s) id method params c open' there =
      let place = ap (channel_in conn.channels) (sym open') ∙ there in
      simp open'
        (at-effects {E = Unit {0}} (λ d. (waiting_for id d, [])) conn.channels s.state c place).1

-- A request on a side of one connection goes out as one frame; at the other end, where that side has
-- a handler for the method, the frame calls the handler with the parameters; its result goes out as
-- one frame, and that frame answers the request with it. Both transports are open, the frames can
-- be encoded, and the side stays open.
pub request-round_trip :
    {Value Frame : Type 0} ⦃values : Values Value⦄ (codec : WireCodec Value Frame)
    (a b : Connection) (side : Option Stream) (id method : String) (params : Option Value)
    (result : Value) (asked answered : Frame) (c d : ChannelState) (handler : ℕ)
    → a.closed ≡ false
    → b.closed ≡ false
    → codec.encode_request
        (record { stream = tag_of side; id = values.string id; method = method; params = params })
      ≡ some asked
    → codec.encode_response
        (record { stream = tag_of side; id = values.string id; result = some result; error = none })
      ≡ some answered
    → IsOpen a side
    → channel_of a (tag_of side) ≡ some c
    → channel_of b (tag_of side) ≡ some d
    → Map.get d.request_handlers method ≡ some handler
    → ((send_request codec a side id method params).1 ≡ write asked ∷ [])
      × ((handle_frame codec b asked).1
          ≡ serve handler (tag_of side) (values.string id) (nil_or params) ∷ [])
      × (send_response codec b (tag_of side) (values.string id) (ok result) ≡ write answered ∷ [])
      × ((handle_frame codec (send_request codec a side id method params).0 answered).1
          ≡ resolve id (ok result) ∷ [])
unfolding send_request send_response transmit transmit_request
request-round_trip ⦃values = values⦄ codec a b side id method params result asked answered c d
      handler open_a open_b out back open' here there known =
    (
      simp (out, open_a) refl,
      request-served codec b
          (record { stream = tag_of side; id = values.string id; method = method; params = params })
          asked d handler out there known,
      simp (back, open_b) refl,
      response-resolves codec (send_request codec a side id method params).0 (tag_of side) id result
          answered (waiting_for id c) back
          (after-request codec a side id method params c open' here) (waits-insert c id),
    )
