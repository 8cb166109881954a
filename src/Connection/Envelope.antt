-- ===== src/Connection/Envelope.antt =====
-- crates/utils/transport/src/lib.rs: the envelope of a message. The derived code of serde and the
-- MessagePack codec are a parameter: structs are maps with the names of the fields, a field that is
-- `None` is left out, and an optional field that holds nil is read back as `None`.
use nexal.Prelude.{
  String, string_eq, Bool, true, Option, none, some, ◌≡◌, ◌&&◌, ◌||◌, if◌then◌else◌, is_some,
}
use nexal.Prelude.Int.{ℤ}
use nexal.Wire.Values.{Values, map_get}

pub record WireError (Value : Type 0) : Type 0 where
  pub code : ℤ
  pub message : String
  pub details : Option Value

pub record WireRequest (Value : Type 0) : Type 0 where
  pub stream : Option String
  pub id : Value
  pub method : String
  pub params : Option Value

pub record WireResponse (Value : Type 0) : Type 0 where
  pub stream : Option String
  pub id : Value
  pub result : Option Value
  pub error : Option (WireError Value)

pub record WireNotification (Value : Type 0) : Type 0 where
  pub stream : Option String
  pub method : String
  pub params : Option Value

pub data WireMessage (Value : Type 0) : Type 0 where
  request : WireRequest Value → WireMessage Value
  response : WireResponse Value → WireMessage Value
  notification : WireNotification Value → WireMessage Value

-- What is read back of an optional field
abbrev pub present : {Value : Type 0} → (Value → Bool) → Option Value → Option Value
present is_nil none = none
present is_nil (some v) = if is_nil v then none else some v

abbrev pub present_error :
    {Value : Type 0} → (Value → Bool) → Option (WireError Value) → Option (WireError Value)
present_error is_nil none = none
present_error is_nil (some e) = some (record e { details = present is_nil e.details })

-- The string that a field holds when it is there
abbrev pub text_field : {Value : Type 0} → (String → Value) → Option String → Option Value
text_field string none = none
text_field string (some s) = some (string s)

pub record WireCodec (Value Frame : Type 0) ⦃values : Values Value⦄ : Type 0 where
  pub decode_frame : Frame → Option Value
  pub encode_request : WireRequest Value → Option Frame
  pub encode_response : WireResponse Value → Option Frame
  pub encode_notification : WireNotification Value → Option Frame
  pub from_request : Value → Option (WireRequest Value)
  pub from_response : Value → Option (WireResponse Value)
  pub from_notification : Value → Option (WireNotification Value)
  pub to_string : Value → String
  pub is_nil : Value → Bool
  pub is_nil-nil : (v : Value) → is_nil v ≡ true → v ≡ values.nil
  pub request_lem :
      (r : WireRequest Value) (f : Frame)
      → encode_request r ≡ some f
      → (v : Value) × (decode_frame f ≡ some v)
        × (map_get v "stream" ≡ text_field values.string r.stream)
        × (map_get v "id" ≡ some r.id)
        × (map_get v "method" ≡ some (values.string r.method))
        × (from_request v ≡ some (record r { params = present is_nil r.params }))
  pub response_lem :
      (r : WireResponse Value) (f : Frame)
      → encode_response r ≡ some f
      → (v : Value) × (decode_frame f ≡ some v)
        × (map_get v "stream" ≡ text_field values.string r.stream)
        × (map_get v "id" ≡ some r.id)
        × (map_get v "method" ≡ none)
        × (map_get v "result" ≡ r.result)
        × (is_some (map_get v "error") ≡ is_some r.error)
        × (from_response v
            ≡ some (record r {
              result = present is_nil r.result;
              error = present_error is_nil r.error;
            }))
  pub notification_lem :
      (n : WireNotification Value) (f : Frame)
      → encode_notification n ≡ some f
      → (v : Value) × (decode_frame f ≡ some v)
        × (map_get v "stream" ≡ text_field values.string n.stream)
        × (map_get v "id" ≡ none)
        × (from_notification v ≡ some (record n { params = present is_nil n.params }))

unfoldable pub as_request :
    {Value : Type 0} → Option (WireRequest Value) → Option (WireMessage Value)
as_request none = none
as_request (some r) = some (request r)

unfoldable pub as_response :
    {Value : Type 0} → Option (WireResponse Value) → Option (WireMessage Value)
as_response none = none
as_response (some r) = some (response r)

unfoldable pub as_notification :
    {Value : Type 0} → Option (WireNotification Value) → Option (WireMessage Value)
as_notification none = none
as_notification (some n) = some (notification n)

-- There is no message where the source's `expect` fails.
unfoldable pub value_to_wire_message :
    {Value Frame : Type 0} ⦃values : Values Value⦄
    → WireCodec Value Frame
    → Value
    → Option (WireMessage Value)
unfolding as_request as_response as_notification
value_to_wire_message codec value =
    let has_id = is_some (map_get value "id") in
    let has_method = is_some (map_get value "method") in
    let has_result = is_some (map_get value "result") in
    let has_error = is_some (map_get value "error") in
    if has_id && has_method
    then as_request (codec.from_request value)
    else if has_id && (has_result || has_error)
    then as_response (codec.from_response value)
    else as_notification (codec.from_notification value)
