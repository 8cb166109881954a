-- ===== src/Connection/Isolation.antt =====
-- crates/utils/transport/src/connection.rs: a frame of one stream stays with it.
use nexal.Prelude.{
  ℕ, zero, suc, nat_eq, ◌==◌, String, string_eq, false, Option, none, some, List, [], ◌∷◌, ◌≡◌, ◌≢◌,
  refl, arith,
}
use nexal.Prelude.Map
use nexal.Wire.Values.{Values}
use nexal.Connection.Envelope.{WireCodec, WireMessage, value_to_wire_message}
use nexal.Connection.Channel.{ChannelState, dispatch}
use nexal.Connection.Store.{at}
use nexal.Connection.{Connection, on_channel}
use nexal.Connection.Frames.{
  stream_tag, route, routed, routed_message, handle_decoded, handle_frame,
}
use nexal.Connection.Routing.{channel_at}

at-others :
    {E : Type 0} (op : ChannelState → ChannelState × List E) (cs : List ChannelState)
    (place other : ℕ)
    → (place == other) ≡ false
    → channel_at (at op cs place).0 other ≡ channel_at cs other
unfolding at
at-others op [] place other h = refl
at-others op (c ∷ cs) zero zero h = ground (arith, h)
at-others op (c ∷ cs) zero (suc other) h = refl
at-others op (c ∷ cs) (suc place) zero h = refl
at-others op (c ∷ cs) (suc place) (suc other) h = at-others op cs place other (ground (arith, h))

-- What is kept when a message is handled for another channel
Keeps : Connection → Connection → ℕ → Type 0
Keeps before after place =
    (after.root ≡ before.root)
    × (after.streams ≡ before.streams)
    × (channel_at after.channels place ≡ channel_at before.channels place)

module _ {Value Frame : Type 0} ⦃values : Values Value⦄ (codec : WireCodec Value Frame) where
  routed-Keeps :
      (conn : Connection) (to : Option ℕ) (msg : WireMessage Value) (place : ℕ)
      → to ≢ some place
      → Keeps conn (routed codec conn to msg).0 place
  unfolding routed on_channel Keeps
  routed-Keeps conn none msg place h = (refl, refl, refl)
  routed-Keeps conn (some p) msg place h =
      (refl, refl, at-others (λ c. dispatch codec c msg) conn.channels p place (ground (arith, h)))

  message-Keeps :
      (conn : Connection) (id : String) (msg : Option (WireMessage Value)) (place : ℕ)
      → Map.get conn.streams id ≢ some place
      → Keeps conn (routed_message codec conn (some id) msg).0 place
  unfolding routed_message route Keeps
  message-Keeps conn id none place h = (refl, refl, refl)
  message-Keeps conn id (some msg) place h = routed-Keeps conn (Map.get conn.streams id) msg place h

-- A frame that carries the tag of a stream changes neither the connection's own channel nor that of
-- another stream, nor which streams are open.
pub handle_frame-isolated :
    {Value Frame : Type 0} ⦃values : Values Value⦄ (codec : WireCodec Value Frame)
    (conn : Connection) (frame : Frame) (v : Value) (id : String) (place : ℕ)
    → codec.decode_frame frame ≡ some v
    → stream_tag codec (values.as_map v) ≡ some id
    → Map.get conn.streams id ≢ some place
    → ((handle_frame codec conn frame).0.root ≡ conn.root)
      × ((handle_frame codec conn frame).0.streams ≡ conn.streams)
      × (channel_at (handle_frame codec conn frame).0.channels place
          ≡ channel_at conn.channels place)
unfolding handle_frame handle_decoded Keeps
handle_frame-isolated codec conn frame v id place decoded tagged other =
    simp (decoded, tagged) (message-Keeps codec conn id (value_to_wire_message codec v) place other)
