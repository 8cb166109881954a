-- ===== src/Gateway/Conn/Calls.antt =====
-- crates/nexal-gateway/src/agent_conn.rs: the requests that are under way, with the reader and the
-- end of the connection. `invoke` takes three locks, one after the other, and ending the connection
-- takes two: each section under a lock is a step, and the steps come in any order.
use nexal.Prelude.{
  ℕ, ◌+◌, ◌-◌, String, nat_eq, Bool, Option, none, some, List, [], ◌∷◌, ◌++◌, ◌==◌, if◌then◌else◌,
}
use nexal.Prelude.Map
use nexal.Prelude.Map.{Map}
use nexal.Wire.Values.{Values}
use nexal.Gateway.Conn
use nexal.Gateway.Conn.{
  AgentConn, AgentConnError, Effect, check_closed, draw_id, insert_pending, write_request,
  dispatch_frame, set_closed, drain_pending, resolve, write, handle, notify,
}

-- The connection, how many requests have seen it open and have no id yet, and the ids that are not
-- in the table yet.
pub record Calls : Type 0 where
  pub conn : AgentConn
  pub checked : ℕ
  pub drawn : Map ℕ (Unit {0})

abbrev pub start : Calls
start = record { conn = Conn.new; checked = 0; drawn = [] }

-- A section of a request: the check, the id, the entry in the table and the frame. Of the reader:
-- one frame. Of `close` and of the reader's end: the mark, and the draining of the table.
pub data Step (Value : Type 0) : Type 0 where
  checking : Step Value
  drawing : Step Value
  inserting : ℕ → Step Value
  sending : ℕ → String → Option Value → Bool → Step Value
  receiving : Value → Bool → Step Value
  shutting : Step Value
  draining : Step Value

-- The ids that effects answer
unfoldable pub answered : {Value : Type 0} → List (Effect Value) → List ℕ
answered [] = []
answered (resolve id r ∷ es) = id ∷ answered es
answered (write f ∷ es) = answered es
answered (handle a b c ∷ es) = answered es
answered (notify a b ∷ es) = answered es

-- A request that finds the connection open goes on.
unfoldable pub checked_by : Calls → Option AgentConnError → Calls
checked_by calls none = record calls { checked = calls.checked + 1 }
checked_by calls (some e) = calls

unfoldable pub drawn_by : Calls → AgentConn × ℕ → Calls
drawn_by calls (conn, id) = record {
  conn = conn;
  checked = calls.checked - 1;
  drawn = (id, tt) ∷ calls.drawn;
}

module _ {Value : Type 0} ⦃values : Values Value⦄ where
  unfoldable pub step : Calls → Step Value → Calls × List (Effect Value)
  unfolding checked_by drawn_by
  step calls checking = (checked_by calls (check_closed calls.conn), [])
  step calls drawing =
      if calls.checked == 0 then (calls, []) else (drawn_by calls (draw_id calls.conn), [])
  step calls (inserting id) =
      if Map.contains_key calls.drawn id
      then (
        record calls { conn = insert_pending calls.conn id; drawn = Map.remove calls.drawn id },
        [],
      )
      else (calls, [])
  step calls (sending id method params sent) = (calls, (write_request id method params sent).1)
  step calls (receiving frame handler) =
      let done = dispatch_frame calls.conn frame handler in (record calls { conn = done.0 }, done.2)
  step calls shutting = (record calls { conn = set_closed calls.conn }, [])
  step calls draining =
      let done = drain_pending calls.conn in (record calls { conn = done.0 }, done.1)

  -- The newest step stands first.
  unfoldable pub run : Calls → List (Step Value) → Calls × List ℕ
  run calls [] = (calls, [])
  run calls (s ∷ steps) =
      let before = run calls steps in
      let now = step before.0 s in (now.0, answered now.1 ++ before.1)
