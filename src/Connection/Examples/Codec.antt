-- ===== src/Connection/Examples/Codec.antt =====
-- A codec for the examples, whose frames are the values themselves.
use nexal.Prelude.{
  String, string_eq, Bool, true, false, Option, none, some, ◌≡◌, refl, subst, ap, ◌∙◌, arith,
  is_some,
}
use nexal.Prelude.Int.{ℤ, pos, negsuc}
use nexal.Wire.Values.{map_get, find_in, find_key, is_key}
use nexal.Gateway.Examples.Rpc.{
  Msg, nil, string, integer, negative, map, Pairs, pair, done, msg_values, msg_str, msg_i64,
}
use nexal.Connection.Envelope.{
  WireError, WireRequest, WireResponse, WireNotification, WireCodec, present, present_error,
  text_field,
}

abbrev pub field : String → Option Msg → Pairs → Pairs
field key none rest = rest
field key (some v) rest = pair (string key) v rest

abbrev code_value : ℤ → Msg
code_value (pos n) = integer n
code_value (negsuc n) = negative n

abbrev error_value : Option (WireError Msg) → Option Msg
error_value none = none
error_value (some e) = some (
    map (
      pair (string "code") (code_value e.code)
        (pair (string "message") (string e.message) (field "data" e.details done))))

abbrev pub request_value : WireRequest Msg → Msg
request_value r = map (
    field "stream" (text_field string r.stream) (
      pair (string "id") r.id
        (pair (string "method") (string r.method) (field "params" r.params done))))

abbrev pub response_value : WireResponse Msg → Msg
response_value r = map (
    field "stream" (text_field string r.stream) (
      pair (string "id") r.id (field "result" r.result (field "error" (error_value r.error) done))))

abbrev notification_value : WireNotification Msg → Msg
notification_value n = map (
    field "stream" (text_field string n.stream)
      (pair (string "method") (string n.method) (field "params" n.params done)))

abbrev is_nil : Msg → Bool
is_nil nil = true
is_nil (string s) = false
is_nil (integer n) = false
is_nil (negative n) = false
is_nil (map ps) = false

abbrev text_in : Option Msg → Option String
text_in none = none
text_in (some v) = msg_str v

abbrev code_in : Option Msg → Option ℤ
code_in none = none
code_in (some v) = msg_i64 v

abbrev build_error : Option ℤ → Option String → Option Msg → Option (WireError Msg)
build_error (some code) (some message) details =
    some (record { code = code; message = message; details = present is_nil details })
build_error none message details = none
build_error (some code) none details = none

abbrev error_in : Option Msg → Option (WireError Msg)
error_in none = none
error_in (some v) =
    build_error (code_in (map_get v "code")) (text_in (map_get v "message")) (map_get v "data")

abbrev build_request :
    Option String → Option Msg → Option String → Option Msg → Option (WireRequest Msg)
build_request stream (some id) (some method) params =
    some (record { stream = stream; id = id; method = method; params = present is_nil params })
build_request stream none method params = none
build_request stream (some id) none params = none

abbrev build_response :
    Option String → Option Msg → Option Msg → Option (WireError Msg) → Option (WireResponse Msg)
build_response stream (some id) result error =
    some (record { stream = stream; id = id; result = present is_nil result; error = error })
build_response stream none result error = none

abbrev build_notification :
    Option String → Option String → Option Msg → Option (WireNotification Msg)
build_notification stream (some method) params =
    some (record { stream = stream; method = method; params = present is_nil params })
build_notification stream none params = none

abbrev request_in : Msg → Option (WireRequest Msg)
request_in v =
    build_request (text_in (map_get v "stream")) (map_get v "id") (text_in (map_get v "method"))
      (map_get v "params")

abbrev response_in : Msg → Option (WireResponse Msg)
response_in v =
    build_response (text_in (map_get v "stream")) (map_get v "id") (map_get v "result")
      (error_in (map_get v "error"))

abbrev notification_in : Msg → Option (WireNotification Msg)
notification_in v =
    build_notification (text_in (map_get v "stream")) (text_in (map_get v "method"))
      (map_get v "params")

pub is_nil-nil : (v : Msg) → is_nil v ≡ true → v ≡ nil
is_nil-nil nil h = refl
is_nil-nil (string s) h = ground (arith, h)
is_nil-nil (integer n) h = ground (arith, h)
is_nil-nil (negative n) h = ground (arith, h)
is_nil-nil (map ps) h = ground (arith, h)

pub request_shape :
    (stream : Option String) (id : Msg) (method : String) (params : Option Msg)
    → let r : WireRequest Msg = record {
      stream = stream;
      id = id;
      method = method;
      params = params;
    } in
      let v = request_value r in
      (map_get v "stream" ≡ text_field string stream)
      × (map_get v "id" ≡ some id)
      × (map_get v "method" ≡ some (string method))
      × (request_in v ≡ some (record r { params = present is_nil params }))
unfolding map_get find_in find_key is_key
request_shape none id method none = (refl, refl, refl, refl)
request_shape none id method (some p) = (refl, refl, refl, refl)
request_shape (some s) id method none = (refl, refl, refl, refl)
request_shape (some s) id method (some p) = (refl, refl, refl, refl)

error_shape : (e : Option (WireError Msg)) → error_in (error_value e) ≡ present_error is_nil e
unfolding map_get find_in find_key is_key
error_shape none = refl
error_shape (some e) = error_shape_of e.code e.message e.details
  where
    error_shape_of :
        (code : ℤ) (message : String) (details : Option Msg)
        → error_in
            (error_value (some (record { code = code; message = message; details = details })))
          ≡ some (record { code = code; message = message; details = present is_nil details })
    error_shape_of (pos n) message none = refl
    error_shape_of (pos n) message (some d) = refl
    error_shape_of (negsuc n) message none = refl
    error_shape_of (negsuc n) message (some d) = refl

pub response_shape :
    (stream : Option String) (id : Msg) (result : Option Msg) (error : Option (WireError Msg))
    → let r : WireResponse Msg = record {
      stream = stream;
      id = id;
      result = result;
      error = error;
    } in
      let v = response_value r in
      (map_get v "stream" ≡ text_field string stream)
      × (map_get v "id" ≡ some id)
      × (map_get v "method" ≡ none)
      × (map_get v "result" ≡ result)
      × (map_get v "error" ≡ error_value error)
unfolding map_get find_in find_key is_key
response_shape none id none none = (refl, refl, refl, refl, refl)
response_shape none id none (some e) = (refl, refl, refl, refl, refl)
response_shape none id (some r) none = (refl, refl, refl, refl, refl)
response_shape none id (some r) (some e) = (refl, refl, refl, refl, refl)
response_shape (some s) id none none = (refl, refl, refl, refl, refl)
response_shape (some s) id none (some e) = (refl, refl, refl, refl, refl)
response_shape (some s) id (some r) none = (refl, refl, refl, refl, refl)
response_shape (some s) id (some r) (some e) = (refl, refl, refl, refl, refl)

text_in-text_field : (o : Option String) → text_in (text_field string o) ≡ o
text_in-text_field none = refl
text_in-text_field (some s) = refl

pub is_some-error_value : (e : Option (WireError Msg)) → is_some (error_value e) ≡ is_some e
is_some-error_value none = refl
is_some-error_value (some e) = refl

pub response-read :
    (r : WireResponse Msg)
    → response_in (response_value r)
      ≡ some (record r { result = present is_nil r.result; error = present_error is_nil r.error })
response-read r =
    let (stream, id, method, result, error) = response_shape r.stream r.id r.result r.error in
    rw (stream, id, result, error, text_in-text_field r.stream, error_shape r.error) refl

pub notification_shape :
    (stream : Option String) (method : String) (params : Option Msg)
    → let n : WireNotification Msg = record { stream = stream; method = method; params = params } in
      let v = notification_value n in
      (map_get v "stream" ≡ text_field string stream)
      × (map_get v "id" ≡ none)
      × (notification_in v ≡ some (record n { params = present is_nil params }))
unfolding map_get find_in find_key is_key
notification_shape none method none = (refl, refl, refl)
notification_shape none method (some p) = (refl, refl, refl)
notification_shape (some s) method none = (refl, refl, refl)
notification_shape (some s) method (some p) = (refl, refl, refl)

abbrev or_this : Msg → Option Msg → Msg
or_this v none = v
or_this v (some w) = w

-- What is sent is what is received.
pub received : (P : Msg → Type 0) (v f : Msg) → some v ≡ some f → P v → P f
received P v f h p = subst P (ap (or_this v) h) p

abbrev pub codec : WireCodec Msg Msg
codec = record {
  decode_frame = λ f. some f;
  encode_request = λ r. some (request_value r);
  encode_response = λ r. some (response_value r);
  encode_notification = λ n. some (notification_value n);
  from_request = request_in;
  from_response = response_in;
  from_notification = notification_in;
  to_string = λ v. "other";
  is_nil = is_nil;
  is_nil-nil = is_nil-nil;
  request_lem = λ r f h.
      let p =
        received
          (λ v.
            (map_get v "stream" ≡ text_field string r.stream)
            × (map_get v "id" ≡ some r.id)
            × (map_get v "method" ≡ some (string r.method))
            × (request_in v ≡ some (record r { params = present is_nil r.params })))
          (request_value r) f h (request_shape r.stream r.id r.method r.params) in
      (f, refl, p.0, p.1, p.2, p.3);
  response_lem = λ r f h.
      let p =
        received
          (λ v.
            (map_get v "stream" ≡ text_field string r.stream)
            × (map_get v "id" ≡ some r.id)
            × (map_get v "method" ≡ none)
            × (map_get v "result" ≡ r.result)
            × (is_some (map_get v "error") ≡ is_some r.error)
            × (response_in v
                ≡ some (record r {
                  result = present is_nil r.result;
                  error = present_error is_nil r.error;
                })))
          (response_value r) f h
          (let (stream, id, method, result, error) =
              response_shape r.stream r.id r.result r.error in
            (
              stream,
              id,
              method,
              result,
              ap is_some error ∙ is_some-error_value r.error,
              response-read r,
            )) in
      (f, refl, p.0, p.1, p.2, p.3, p.4, p.5);
  notification_lem = λ n f h.
      let p =
        received
          (λ v.
            (map_get v "stream" ≡ text_field string n.stream)
            × (map_get v "id" ≡ none)
            × (notification_in v ≡ some (record n { params = present is_nil n.params })))
          (notification_value n) f h (notification_shape n.stream n.method n.params) in
      (f, refl, p.0, p.1, p.2);
}
