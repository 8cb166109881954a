-- ===== src/Gateway/Conn.antt =====
-- crates/nexal-gateway/src/agent_conn.rs: `AgentConn`, the gateway's end of the connection to one
-- agent. A section under a lock is one function. What it sends and resolves is given as effects.
pub mod Calls
pub mod Balance
pub mod Answering
pub mod Closing
use nexal.Prelude.{
  ℕ, ◌+◌, ◌-◌, ◌%◌, String, string_eq, nat_eq, str_append, Bool, true, false, ◌||◌, not, Option,
  none, some, List, [], ◌∷◌, ◌++◌, ◌≡◌, if◌then◌else◌, add64, ltb, is_some, map, ◌===◌,
}
use nexal.Prelude.Int.{ℤ, pos, negsuc}
use nexal.Prelude.Map
use nexal.Prelude.Map.{Map}
use nexal.Wire.Values.{Values, map_get, map_str, map_u64}

pub data AgentConnError : Type 0 where
  connect : String → AgentConnError
  send : String → AgentConnError
  closed : AgentConnError
  agent_error : ℤ → String → AgentConnError
  bad_frame : String → AgentConnError

pub record JsonRpcError : Type 0 where
  pub code : ℤ
  pub message : String

-- `impl From<AgentConnError> for JsonRpcError`
unfoldable pub from_conn_error : AgentConnError → JsonRpcError
from_conn_error (agent_error code message) = record { code = code; message = message }
from_conn_error closed = record { code = negsuc 31999; message = "agent connection closed" }
from_conn_error (connect m) = record {
  code = negsuc 32019;
  message = str_append "agent connect: " m;
}
from_conn_error (send m) = record { code = negsuc 32019; message = str_append "agent send: " m }
from_conn_error (bad_frame m) = record {
  code = negsuc 32602;
  message = str_append "agent frame: " m;
}

pub data Result (Value : Type 0) : Type 0 where
  ok : Value → Result Value
  err : AgentConnError → Result Value

-- `as i32`
unfoldable pub as_i32 : ℤ → ℤ
as_i32 (pos n) =
    let m = n % 4294967296 in if ltb m 2147483648 then pos m else negsuc (4294967295 - m)
as_i32 (negsuc n) =
    let m = n % 4294967296 in if ltb m 2147483648 then negsuc m else pos (4294967295 - m)

code_of_kind : Option String → ℤ
code_of_kind none = negsuc 32602
code_of_kind (some kind) =
    if kind === "parse"
    then negsuc 32699
    else if kind === "invalid_request"
    then negsuc 32599
    else if kind === "method_not_found"
    then negsuc 32600
    else if kind === "invalid_params"
    then negsuc 32601
    else negsuc 32602

code_or : Option ℤ → Option String → ℤ
unfolding code_of_kind
code_or (some code) kind = as_i32 code
code_or none kind = code_of_kind kind

module _ {Value : Type 0} ⦃values : Values Value⦄ where
  i64_of : Option Value → Option ℤ
  i64_of none = none
  i64_of (some v) = values.as_i64 v

  unfoldable pub agent_error_code : Value → ℤ
  unfolding code_or i64_of
  agent_error_code e = code_or (i64_of (map_get e "code")) (map_str e "kind")

  unfoldable pub build_rpc_request : ℕ → String → Value → Value
  build_rpc_request id method params = values.map (
      (values.string "id", values.integer id)
      ∷ (values.string "method", values.string method)
      ∷ (values.string "params", params)
      ∷ [])

  unfoldable pub build_rpc_notification : String → Value → Value
  build_rpc_notification method params =
      values.map
        ((values.string "method", values.string method) ∷ (values.string "params", params) ∷ [])

pub record AgentConn : Type 0 where
  pub pending : Map ℕ (Unit {0})
  pub next_id : ℕ
  pub is_closed : Bool

abbrev pub new : AgentConn
new = record { pending = []; next_id = 1; is_closed = false }

-- What a section does besides: a frame goes out, the request with an id is answered, the handler is
-- called with an id, a method and parameters, or a notification is passed on.
pub data Effect (Value : Type 0) : Type 0 where
  write : Value → Effect Value
  resolve : ℕ → Result Value → Effect Value
  handle : Value → String → Option Value → Effect Value
  notify : String → Option Value → Effect Value

unfoldable pub drain : {Value : Type 0} → Map ℕ (Unit {0}) → List (Effect Value)
drain [] = []
drain ((id, tx) ∷ pending) = resolve id (err closed) ∷ drain pending

text_or : String → Option String → String
text_or d none = d
text_or d (some s) = s

unfoldable pub is_pending : AgentConn → Option ℕ → Bool
is_pending conn none = false
is_pending conn (some id) = Map.contains_key conn.pending id

-- The three sections of `invoke` under a lock
unfoldable pub check_closed : AgentConn → Option AgentConnError
check_closed conn = if conn.is_closed then some closed else none

unfoldable pub draw_id : AgentConn → AgentConn × ℕ
draw_id conn = (record conn { next_id = add64 conn.next_id 1 }, conn.next_id)

unfoldable pub insert_pending : AgentConn → ℕ → AgentConn
insert_pending conn id = record conn { pending = Map.insert conn.pending id tt }

-- The two sections of `close`, and of the end of the reader; `close` ends the reader between them.
unfoldable pub set_closed : AgentConn → AgentConn
set_closed conn = record conn { is_closed = true }

unfoldable pub drain_pending : {Value : Type 0} → AgentConn → AgentConn × List (Effect Value)
unfolding drain
drain_pending conn = (record conn { pending = [] }, drain conn.pending)

module _ {Value : Type 0} ⦃values : Values Value⦄ where
  unfoldable pub or_nil : Option Value → Value
  or_nil none = values.nil
  or_nil (some v) = v

  -- `invoke`, behind the entry in the table; `sent` says whether the writer still takes frames.
  unfoldable pub write_request :
      ℕ → String → Option Value → Bool → Option AgentConnError × List (Effect Value)
  unfolding or_nil
  write_request id method params sent =
      if sent
      then (none, write (build_rpc_request id method (or_nil params)) ∷ [])
      else (some closed, [])

  -- `AgentConn::notify`
  unfoldable pub send_notification :
      String → Value → Bool → Option AgentConnError × List (Effect Value)
  send_notification method params sent =
      if sent then (none, write (build_rpc_notification method params) ∷ []) else (some closed, [])

  unfoldable pub answer_of : Value → Option Value → Result Value
  unfolding or_nil text_or
  answer_of frame (some e) =
      err (agent_error (agent_error_code e) (text_or "agent error" (map_str e "message")))
  answer_of frame none = ok (or_nil (map_get frame "result"))

  unfoldable pub notification : Value → Option String → Option AgentConnError × List (Effect Value)
  notification frame none = (some (bad_frame "notification missing method"), [])
  notification frame (some method) = (none, notify method (map_get frame "params") ∷ [])

  -- A frame that answers no request of ours
  unfoldable pub incoming :
      Value → Bool → Option Value → Option AgentConnError × List (Effect Value)
  unfolding notification text_or
  incoming frame handler none = notification frame (map_str frame "method")
  incoming frame handler (some id) =
      if handler
      then (none, handle id (text_or "" (map_str frame "method")) (map_get frame "params") ∷ [])
      else notification frame (map_str frame "method")

  -- The id of a frame that can be an answer
  unfoldable pub response_id : Value → Option ℕ
  response_id frame =
      let id = map_u64 frame "id" in if is_some (map_get frame "method") then none else id

  unfoldable pub resolved :
      AgentConn → Value → Option ℕ → AgentConn × Option AgentConnError × List (Effect Value)
  unfolding answer_of
  resolved conn frame none = (conn, none, [])
  resolved conn frame (some id) = (
    record conn { pending = Map.remove conn.pending id },
    none,
    resolve id (answer_of frame (map_get frame "error")) ∷ [],
  )

  unfoldable pub dispatch_frame :
      AgentConn → Value → Bool → AgentConn × Option AgentConnError × List (Effect Value)
  unfolding is_pending resolved
  dispatch_frame conn frame handler =
      let other = incoming frame handler (map_get frame "id") in
      if is_pending conn (response_id frame)
      then resolved conn frame (response_id frame)
      else (conn, other.0, other.1)

  unfoldable pub handled : Value → Option Value → String → Value
  handled id (some v) message =
      values.map ((values.string "id", id) ∷ (values.string "result", v) ∷ [])
  handled id none message = values.map (
      (values.string "id", id)
      ∷ (
        values.string "error",
        values.map (
            (values.string "code", values.negative 32603)
            ∷ (values.string "message", values.string message)
            ∷ []),
      )
      ∷ [])
