-- ===== src/Gateway/Conn/Answering.antt =====
-- crates/nexal-gateway/src/agent_conn.rs: each request gets one answer, and its own.
use nexal.Prelude.{
  ℕ, ◌+◌, ◌<◌, string_eq, nat_eq, Bool, true, none, some, List, [], ◌∷◌, ◌++◌, ◌≡◌, refl, arith,
  u64_mod, length,
}
use nexal.Prelude.Map
use nexal.Prelude.Map.{Map}
use nexal.Wire.Values.{Values, map_u64, number_of, map_get-map}
use nexal.Wire.Pending.{Accounts, ids, count, issued, count-append}
use nexal.Gateway.Conn.{
  handled, or_nil, ok, answer_of, AgentConn, dispatch_frame, is_pending, resolved, drain_pending,
  resolve, response_id,
}
use nexal.Gateway.Conn.Calls.{start, Step, draining, step, run}
use nexal.Gateway.Conn.Balance.{answered-drain, run-Valid, ids-append}

-- Whatever the order in which the sections of requests, frames and the ends of the connection come,
-- an id that was given out is on its way into the table, waits there, or has been answered once,
-- and no other id has: as long as there are fewer steps than ids.
pub run-Accounts :
    {Value : Type 0} ⦃values : Values Value⦄ (steps : List (Step Value))
    → length steps + 2 < u64_mod
    → Accounts
        ((run start steps).0.drawn ++ (run start steps).0.conn.pending)
        (run start steps).0.conn.next_id
        (run start steps).1
run-Accounts steps room =
    let calls = (run start steps).0 in
    record {
      balance = λ i.
          omega
            (arith, (run-Valid steps room).balance i, ids-append i calls.drawn calls.conn.pending);
    }

-- When the table is drained, each request that was given an id has had exactly one answer, but for
-- those whose entry was not yet in the table, which have had none: as long as there are fewer steps
-- than ids.
draining-answers :
    {Value : Type 0} ⦃values : Values Value⦄ (steps : List (Step Value)) (id : ℕ)
    → length steps + 3 < u64_mod
    → count id (run start (draining ∷ steps)).1
        + count id (ids (run start (draining ∷ steps)).0.drawn)
      ≡ issued id (run start steps).0.conn.next_id
unfolding run step drain_pending
draining-answers {Value = Value} steps id room =
    let before = run start steps in
    rw (answered-drain Value before.0.conn.pending) (
      omega (
        arith,
        (run-Valid steps (omega (arith, room))).balance id,
        count-append id (ids before.0.conn.pending) before.1,
      ))

-- An answer with a result to a request that waits, under an id of 64 bits, gives that request the
-- result, takes it out of the table, and does nothing else.
pub dispatch_frame-handled :
    {Value : Type 0} ⦃values : Values Value⦄ (conn : AgentConn) (id : ℕ) (v : Value)
    (handler : Bool)
    → id < u64_mod
    → Map.contains_key conn.pending id ≡ true
    → dispatch_frame conn (handled (values.integer id) (some v) "") handler
      ≡ (record conn { pending = Map.remove conn.pending id }, none, resolve id (ok v) ∷ [])
unfolding dispatch_frame handled response_id is_pending resolved answer_of map_u64 or_nil number_of
dispatch_frame-handled {Value = Value} ⦃values⦄ conn id v handler small waits =
    simp
      (
        map_get-map "method" "id" "result" (values.integer id) v,
        map_get-map "id" "id" "result" (values.integer id) v,
        map_get-map "error" "id" "result" (values.integer id) v,
        map_get-map "result" "id" "result" (values.integer id) v,
        values.as_u64-integer id small,
        waits,
      )
      refl
