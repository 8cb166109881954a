-- ===== src/Connection/Examples.antt =====
-- The theorems on the connection at concrete inputs.
mod Codec
use nexal.Prelude.{
  ℕ, ◌+◌, ◌≤◌, String, string_eq, Bool, true, false, Option, none, some, List, [], ◌∷◌, ◌≡◌, ◌≢◌,
  refl, arith,
}
use nexal.Prelude.Map
use nexal.Wire.Values.{Values, map_get, find_in, find_key, is_key}
use nexal.Gateway.Examples.Rpc.{Msg, nil, string, integer, map, pair, done, msg_values}
use nexal.Connection.Envelope.{WireCodec, value_to_wire_message, as_response}
use nexal.Connection.Channel.{
  ChannelState, fresh_channel, resolve, dispatch, id_to_key, id_text, serve, write, ok, nil_or,
}
use nexal.Connection.Store.{at}
use nexal.Connection.{
  Connection, Stream, new, tag_of, arrived, disconnected, stream, open_stream, on_channel,
}
use nexal.Connection.Frames.{
  send_request, send_response, handle_frame, stream_tag, find_stream, on_event, handle_decoded,
  routed_message, route, routed,
}
use nexal.Connection.Answering.{count, keys}
use nexal.Connection.Moves.{waiting}
use nexal.Connection.Requests.{
  Step, opening, requesting, handling, receiving, closing_stream, closing, step, run, issued,
  run-answers_once,
}
use nexal.Connection.Closing.{pending_on, pending_at, closing-answers_all}
use nexal.Connection.Routing.{channel_at}
use nexal.Connection.RoundTrip.{request-round_trip}
use nexal.Connection.Isolation.{handle_frame-isolated}
use Codec.{codec, request_value, response_value, field}

abbrev agent : Stream
agent = record { id = "agent-1"; state = 0 }

-- The newest step stands first: a request of the connection itself, and one of a stream, which has
-- its answer.
abbrev steps : List (Step Msg Msg)
steps =
    receiving (
      arrived (
        map (
          pair (string "stream") (string "agent-1")
            (pair (string "id") (string "u2") (pair (string "result") (integer 5) done)))))
    ∷ requesting (some agent) "u2" "process/start" none
    ∷ opening "agent-1"
    ∷ requesting none "u1" "gateway/hello" none
    ∷ []

run-answers_once_example :
    (waiting "u2" (run codec steps).0 + count "u2" (run codec steps).1 ≡ count "u2" (issued steps))
    × (count "u2" (issued steps) ≤ 1)
unfolding run step stream open_stream send_request on_channel on_event handle_frame handle_decoded
    routed_message route routed at dispatch id_to_key id_text stream_tag find_stream
    value_to_wire_message map_get find_in find_key is_key as_response Map.get Map.insert Map.remove
    Map.contains_key
run-answers_once_example = run-answers_once codec steps "u2" (refl, omega arith, (refl, tt, tt))

closing-answers_all_example :
    (count "u1" (run codec (closing ∷ steps)).1 ≡ 1)
    × (count "u1" (run codec (receiving disconnected ∷ steps)).1 ≡ 1)
unfolding run step stream open_stream send_request on_channel on_event handle_frame handle_decoded
    routed_message route routed at dispatch id_to_key id_text stream_tag find_stream
    value_to_wire_message map_get find_in find_key is_key as_response Map.get Map.insert Map.remove
    Map.contains_key
closing-answers_all_example =
    closing-answers_all codec steps "u1" none (refl, omega arith, (refl, tt, tt)) tt (omega arith)
      refl

abbrev asking : Connection
asking = record {
  closed = false;
  pumping = true;
  root = fresh_channel;
  channels = fresh_channel ∷ [];
  streams = ("agent-1", 0) ∷ [];
}

abbrev served : ChannelState
served = record fresh_channel { request_handlers = ("process/start", 7) ∷ [] }

abbrev serving : Connection
serving = record asking { channels = served ∷ [] }

request-round_trip_example :
    ((send_request codec asking (some agent) "u1" "process/start" (some (integer 1))).1
      ≡ write (
          request_value (record {
            stream = some "agent-1";
            id = string "u1";
            method = "process/start";
            params = some (integer 1);
          }))
        ∷ [])
    × ((handle_frame codec serving (
          request_value (record {
            stream = some "agent-1";
            id = string "u1";
            method = "process/start";
            params = some (integer 1);
          }))).1
        ≡ serve 7 (some "agent-1") (string "u1") (nil_or (some (integer 1))) ∷ [])
    × (send_response codec serving (some "agent-1") (string "u1") (ok (integer 2))
        ≡ write (
            response_value (record {
              stream = some "agent-1";
              id = string "u1";
              result = some (integer 2);
              error = none;
            }))
          ∷ [])
    × ((handle_frame codec
          (send_request codec asking (some agent) "u1" "process/start" (some (integer 1))).0
          (response_value (record {
            stream = some "agent-1";
            id = string "u1";
            result = some (integer 2);
            error = none;
          }))).1
        ≡ resolve "u1" (ok (integer 2)) ∷ [])
unfolding Map.get
request-round_trip_example =
    request-round_trip codec asking serving (some agent) "u1" "process/start" (some (integer 1))
      (integer 2)
      (request_value (record {
        stream = some "agent-1";
        id = string "u1";
        method = "process/start";
        params = some (integer 1);
      }))
      (response_value (record {
        stream = some "agent-1";
        id = string "u1";
        result = some (integer 2);
        error = none;
      }))
      fresh_channel served 7 refl refl refl refl refl refl refl refl

abbrev answer : Msg
answer =
    response_value
      (record { stream = some "agent-1"; id = string "u1"; result = some nil; error = none })

handle_frame-isolated_example :
    ((handle_frame codec asking answer).0.root ≡ asking.root)
    × ((handle_frame codec asking answer).0.streams ≡ asking.streams)
    × (channel_at (handle_frame codec asking answer).0.channels 1 ≡ channel_at asking.channels 1)
unfolding stream_tag find_stream is_key Map.get
handle_frame-isolated_example =
    handle_frame-isolated codec asking answer answer "agent-1" 1 refl refl (λ h. ground (arith, h))
