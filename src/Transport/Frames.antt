-- ===== src/Transport/Frames.antt =====
-- crates/utils/transport/src/transport.rs: the heartbeat's frames. The decoding and encoding of
-- MessagePack are of the crate rmp_serde, and a parameter.
use nexal.Prelude.{
  ℕ, String, string_eq, ◌===◌, Bool, true, false, Option, none, some, List, [], ◌∷◌, ◌≡◌,
  if◌then◌else◌, refl,
}
use nexal.Wire.Values.{Values, is_key}

pub record FrameCodec (Value : Type 0) ⦃values : Values Value⦄ : Type 0 where
  pub decode_frame : List ℕ → Option Value
  pub encode_method : String → List ℕ
  pub decode_frame-ping :
      decode_frame (encode_method "ping")
      ≡ some (values.map ((values.string "method", values.string "ping") ∷ []))
  pub decode_frame-pong :
      decode_frame (encode_method "pong")
      ≡ some (values.map ((values.string "method", values.string "pong") ∷ []))

unfoldable pub kind_of : Option String → Option Bool
kind_of none = none
kind_of (some s) = if s === "ping" then some true else if s === "pong" then some false else none

module _ {Value : Type 0} ⦃values : Values Value⦄ where
  unfoldable pub classify_map : Option (List (Value × Value)) → Option Bool
  unfolding is_key kind_of
  classify_map none = none
  classify_map (some []) = none
  classify_map (some ((k, v) ∷ [])) =
      if is_key "method" (values.as_str k) then kind_of (values.as_str v) else none
  classify_map (some (p ∷ q ∷ pairs)) = none

  map_of : Option Value → Option (List (Value × Value))
  map_of none = none
  map_of (some v) = values.as_map v

  module _ (codec : FrameCodec Value) where
    unfoldable pub ping_frame_bytes : List ℕ
    ping_frame_bytes = codec.encode_method "ping"

    unfoldable pub pong_frame_bytes : List ℕ
    pong_frame_bytes = codec.encode_method "pong"

    unfoldable pub classify_ping_pong : List ℕ → Option Bool
    unfolding classify_map map_of
    classify_ping_pong bytes = classify_map (map_of (codec.decode_frame bytes))

    -- The two frames of the heartbeat are told from each other.
    pub classify-frames :
        (classify_ping_pong ping_frame_bytes ≡ some true)
        × (classify_ping_pong pong_frame_bytes ≡ some false)
    unfolding classify_ping_pong classify_map map_of kind_of is_key ping_frame_bytes
        pong_frame_bytes
    classify-frames = (
      simp (codec.decode_frame-ping, values.as_map-map, values.as_str-string) refl,
      simp (codec.decode_frame-pong, values.as_map-map, values.as_str-string) refl,
    )
