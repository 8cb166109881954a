-- ===== src/Connection/Channel.antt =====
-- crates/utils/transport/src/connection.rs: `ChannelState`, what the connection itself and each of
-- its streams keep. A handler is named by a number, and what it does is an effect.
use nexal.Prelude.{ℕ, String, string_eq, Option, none, some, List, [], ◌∷◌, if◌then◌else◌}
use nexal.Prelude.Int.{negsuc}
use nexal.Prelude.Map
use nexal.Prelude.Map.{Map}
use nexal.Wire.Values.{Values}
use nexal.Connection.Envelope.{WireError, WireMessage, request, response, notification, WireCodec}

pub record ChannelState : Type 0 where
  pub pending : Map String (Unit {0})
  pub notification_handlers : Map String (List ℕ)
  pub request_handlers : Map String ℕ

abbrev pub fresh_channel : ChannelState
fresh_channel = record { pending = []; notification_handlers = []; request_handlers = [] }

pub data Answer (Value : Type 0) : Type 0 where
  ok : Value → Answer Value
  err : WireError Value → Answer Value

-- A waiting request gets its answer, a handler is called, a frame goes to the transport, or a call
-- returns at once because its frame cannot be encoded.
pub data Effect (Value Frame : Type 0) : Type 0 where
  resolve : String → Answer Value → Effect Value Frame
  notify : ℕ → Value → Effect Value Frame
  serve : ℕ → Option String → Value → Value → Effect Value Frame
  write : Frame → Effect Value Frame
  failed : Effect Value Frame

abbrev pub closed_error : {Value : Type 0} → String → WireError Value
closed_error reason = record { code = negsuc 31999; message = reason; details = none }

unfoldable pub reject_pending :
    {Value Frame : Type 0} → String → Map String (Unit {0}) → List (Effect Value Frame)
reject_pending reason [] = []
reject_pending reason ((id, w) ∷ pending) =
    resolve id (err (closed_error reason)) ∷ reject_pending reason pending

unfoldable pub reject_all_pending :
    {Value Frame : Type 0} → String → ChannelState → ChannelState × List (Effect Value Frame)
unfolding reject_pending
reject_all_pending reason state =
    (record state { pending = [] }, reject_pending reason state.pending)

unfoldable pub call_handlers : {Value Frame : Type 0} → Value → List ℕ → List (Effect Value Frame)
call_handlers params [] = []
call_handlers params (h ∷ hs) = notify h params ∷ call_handlers params hs

unfoldable pub call_all :
    {Value Frame : Type 0} → Value → Option (List ℕ) → List (Effect Value Frame)
unfolding call_handlers
call_all params none = []
call_all params (some handlers) = call_handlers params handlers

unfoldable pub call_one :
    {Value Frame : Type 0} → Option String → Value → Value → Option ℕ → List (Effect Value Frame)
call_one stream id params none = []
call_one stream id params (some handler) = serve handler stream id params ∷ []

unfoldable pub id_text : String → Option String → String
id_text other none = other
id_text other (some s) = s

module _ {Value : Type 0} ⦃values : Values Value⦄ where
  unfoldable pub nil_or : Option Value → Value
  nil_or none = values.nil
  nil_or (some v) = v

  unfoldable pub answer_of : Option Value → Option (WireError Value) → Answer Value
  unfolding nil_or
  answer_of result (some error) = err error
  answer_of result none = ok (nil_or result)

  module _ {Frame : Type 0} (codec : WireCodec Value Frame) where
    -- A string that is UTF-8 is its own key, and all else is printed.
    unfoldable pub id_to_key : Value → String
    unfolding id_text
    id_to_key id = id_text (codec.to_string id) (values.as_str id)

    unfoldable pub dispatch :
        ChannelState → WireMessage Value → ChannelState × List (Effect Value Frame)
    unfolding answer_of id_to_key call_all call_one nil_or
    dispatch state (response resp) =
        let key = id_to_key resp.id in
        if Map.contains_key state.pending key
        then (
          record state { pending = Map.remove state.pending key },
          resolve key (answer_of resp.result resp.error) ∷ [],
        )
        else (record state { pending = Map.remove state.pending key }, [])
    dispatch state (notification notif) =
        (state, call_all (nil_or notif.params) (Map.get state.notification_handlers notif.method))
    dispatch state (request req) = (
      state,
      call_one req.stream req.id (nil_or req.params) (Map.get state.request_handlers req.method),
    )
