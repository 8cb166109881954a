-- ===== src/Agent/Channel.antt =====
-- crates/nexal-agent/src/server/channel/dispatch.rs: `MsgpackChannel`, the requests of the agent to
-- the gateway, and the reading of a frame that comes in.
pub mod Answering
use nexal.Prelude.{
  ℕ, ◌+◌, String, string_eq, nat_eq, Bool, true, false, Option, none, some, List, [], ◌∷◌, ◌≡◌,
  if◌then◌else◌, add64, is_some,
}
use nexal.Prelude.Map
use nexal.Prelude.Map.{Map}
use nexal.Wire.Values.{Values, map_get, map_str, map_u64}

pub record MsgpackChannel : Type 0 where
  pub pending : Map ℕ (Unit {0})
  pub next_id : ℕ

abbrev pub new : MsgpackChannel
new = record { pending = []; next_id = 1 }

pub data Result (Value : Type 0) : Type 0 where
  ok : Value → Result Value
  err : String → Result Value

-- A frame goes out, or the request with an id has its answer.
pub data Effect (Value : Type 0) : Type 0 where
  write : Value → Effect Value
  resolve : ℕ → Result Value → Effect Value

unfoldable pub text_or : String → Option String → String
text_or d none = d
text_or d (some s) = s

unfoldable pub is_pending : MsgpackChannel → Option ℕ → Bool
is_pending channel none = false
is_pending channel (some id) = Map.contains_key channel.pending id

-- The id, and the entry in the table
unfoldable pub issue : MsgpackChannel → MsgpackChannel
issue channel = record {
  pending = Map.insert channel.pending channel.next_id tt;
  next_id = add64 channel.next_id 1;
}

module _ {Value : Type 0} ⦃values : Values Value⦄ where
  unfoldable pub or_nil : Option Value → Value
  or_nil none = values.nil
  or_nil (some v) = v

  unfoldable pub request_frame : ℕ → String → Value → Value
  request_frame id method params = values.map (
      (values.string "id", values.integer id)
      ∷ (values.string "method", values.string method)
      ∷ (values.string "params", params)
      ∷ [])

  -- `request` until it waits. When the send fails the call ends with an error, and the entry stays.
  unfoldable pub request :
      MsgpackChannel → String → Value → Bool → MsgpackChannel × Option String × List (Effect Value)
  unfolding issue
  request channel method params sent = (
    issue channel,
    if sent then none else some "connection closed",
    if sent then write (request_frame channel.next_id method params) ∷ [] else [],
  )

  -- `request_blocking` until it waits. When the send fails the entry is taken out, and the call
  -- itself is the answer.
  unfoldable pub request_blocking :
      MsgpackChannel → String → Value → Bool → MsgpackChannel × List (Effect Value)
  unfolding issue
  request_blocking channel method params sent =
      let issued = issue channel in
      if sent then (issued, write (request_frame channel.next_id method params) ∷ []) else (
        record issued { pending = Map.remove issued.pending channel.next_id },
        resolve channel.next_id (err "connection closed") ∷ [],
      )

  unfoldable pub answer_of : Value → Option Value → Result Value
  unfolding text_or or_nil
  answer_of frame (some e) = err (text_or "gateway error" (map_str e "message"))
  answer_of frame none = ok (or_nil (map_get frame "result"))

  unfoldable pub response_id : Value → Option ℕ
  response_id frame =
      let id = map_u64 frame "id" in if is_some (map_get frame "method") then none else id

  unfoldable pub resolved :
      MsgpackChannel → Value → Option ℕ → MsgpackChannel × Bool × List (Effect Value)
  unfolding answer_of
  resolved channel frame none = (channel, false, [])
  resolved channel frame (some id) = (
    record channel { pending = Map.remove channel.pending id },
    true,
    resolve id (answer_of frame (map_get frame "error")) ∷ [],
  )

  unfoldable pub try_resolve_pending :
      MsgpackChannel → Value → MsgpackChannel × Bool × List (Effect Value)
  unfolding is_pending resolved
  try_resolve_pending channel frame =
      if is_pending channel (response_id frame)
      then resolved channel frame (response_id frame)
      else (channel, false, [])

  unwrap : Value → Option (List Value) → Value
  unwrap params none = params
  unwrap params (some []) = values.nil
  unwrap params (some (v ∷ [])) = v
  unwrap params (some (v ∷ w ∷ vs)) = params

  unfoldable pub unwrap_positional : Value → Value
  unfolding unwrap
  unwrap_positional params = unwrap params (values.as_array params)
