-- ===== src/Connection/Routing.antt =====
-- crates/utils/transport/src/connection.rs: the channel that a tag names, and what a frame does there.
use nexal.Prelude.{
  ℕ, zero, suc, String, string_eq, Option, none, some, List, [], ◌∷◌, ◌≡◌, refl, ap, ◌∙◌, arith,
  Bool-cases, inl, inr,
}
use nexal.Prelude.Map
use nexal.Prelude.Map.{Map, get-insert_self}
use nexal.Wire.Values.{Values, map_get, find_in, find_key, is_key}
use nexal.Connection.Envelope.{WireCodec, WireMessage, value_to_wire_message, text_field}
use nexal.Connection.Channel.{ChannelState, dispatch}
use nexal.Connection.Store.{at}
use nexal.Connection.{Connection, on_channel}
use nexal.Connection.Frames.{
  find_stream, stream_tag, route, routed, routed_message, handle_decoded, handle_frame,
}

abbrev pub channel_at : List ChannelState → ℕ → Option ChannelState
channel_at [] place = none
channel_at (c ∷ cs) zero = some c
channel_at (c ∷ cs) (suc place) = channel_at cs place

abbrev pub channel_in : List ChannelState → Option ℕ → Option ChannelState
channel_in cs none = none
channel_in cs (some place) = channel_at cs place

-- The channel that a tag names: the connection's own, or that of an open stream
abbrev pub channel_of : Connection → Option String → Option ChannelState
channel_of conn none = some conn.root
channel_of conn (some id) = channel_in conn.channels (Map.get conn.streams id)

pub at-effects :
    {E : Type 0} (op : ChannelState → ChannelState × List E) (cs : List ChannelState) (place : ℕ)
    (c : ChannelState)
    → channel_at cs place ≡ some c
    → ((at op cs place).1 ≡ (op c).1) × (channel_at (at op cs place).0 place ≡ some (op c).0)
unfolding at
at-effects op [] place c h = ground (arith, h)
at-effects op (d ∷ cs) zero c h = (cc h, cc h)
at-effects op (d ∷ cs) (suc place) c h = at-effects op cs place c h

module _ {Value Frame : Type 0} ⦃values : Values Value⦄ (codec : WireCodec Value Frame) where
  find_stream-find_key :
      (pairs : List (Value × Value)) (t : Option String)
      → find_key "stream" pairs ≡ text_field values.string t
      → find_stream codec pairs ≡ t
  unfolding find_stream find_key
  find_stream-find_key [] none h = refl
  find_stream-find_key [] (some s) h = ground (arith, h)
  find_stream-find_key ((k, v) ∷ pairs) none h =
      elim (Bool-cases (is_key "stream" (values.as_str k))) [
        | inl here ↦ ground (arith, h, here)
        | inr other ↦ simp other (find_stream-find_key pairs none (ground (arith, h, other)))
      ]
  find_stream-find_key ((k, v) ∷ pairs) (some s) h =
      elim (Bool-cases (is_key "stream" (values.as_str k))) [
        | inl here ↦
            let found : v ≡ values.string s = ground (arith, h, here) in
            simp (here, ap values.as_str found ∙ values.as_str-string s) refl
        | inr other ↦ simp other (find_stream-find_key pairs (some s) (ground (arith, h, other)))
      ]

  stream_tag-find_in :
      (m : Option (List (Value × Value))) (t : Option String)
      → find_in "stream" m ≡ text_field values.string t
      → stream_tag codec m ≡ t
  unfolding stream_tag find_in
  stream_tag-find_in none none h = refl
  stream_tag-find_in none (some s) h = ground (arith, h)
  stream_tag-find_in (some pairs) t h = find_stream-find_key pairs t h

  stream_tag-map_get :
      (v : Value) (t : Option String)
      → map_get v "stream" ≡ text_field values.string t
      → stream_tag codec (values.as_map v) ≡ t
  unfolding map_get
  stream_tag-map_get v t h = stream_tag-find_in (values.as_map v) t h

  routed-effects :
      (conn : Connection) (place : Option ℕ) (msg : WireMessage Value) (c : ChannelState)
      → channel_in conn.channels place ≡ some c
      → (routed codec conn place msg).1 ≡ (dispatch codec c msg).1
  unfolding routed on_channel
  routed-effects conn none msg c h = ground (arith, h)
  routed-effects conn (some place) msg c h =
      (at-effects (λ d. dispatch codec d msg) conn.channels place c h).0

  -- What a message that is routed to a channel does there
  route-effects :
      (conn : Connection) (tag : Option String) (msg : WireMessage Value) (c : ChannelState)
      → channel_of conn tag ≡ some c
      → (route codec conn tag msg).1 ≡ (dispatch codec c msg).1
  unfolding route on_channel
  route-effects conn none msg c h = cc h
  route-effects conn (some id) msg c h = routed-effects conn (Map.get conn.streams id) msg c h

  pub handled-effects :
      (conn : Connection) (frame : Frame) (v : Value) (tag : Option String)
      (msg : WireMessage Value) (c : ChannelState)
      → codec.decode_frame frame ≡ some v
      → map_get v "stream" ≡ text_field values.string tag
      → value_to_wire_message codec v ≡ some msg
      → channel_of conn tag ≡ some c
      → (handle_frame codec conn frame).1 ≡ (dispatch codec c msg).1
  unfolding handle_frame handle_decoded routed_message
  handled-effects conn frame v tag msg c decoded tagged shaped there =
      simp (decoded, stream_tag-map_get v tag tagged, shaped) (route-effects conn tag msg c there)
