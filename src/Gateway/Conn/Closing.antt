-- ===== src/Gateway/Conn/Closing.antt =====
-- crates/nexal-gateway/src/agent_conn.rs: the end of a connection with no request between its
-- sections. Nothing is given out behind it, and nothing is left waiting.
use nexal.Prelude.{
  ℕ, ◌+◌, ◌<◌, Bool, true, Option, none, some, List, [], ◌∷◌, ◌++◌, ◌≡◌, refl, arith, nat_eq,
  length, u64_mod, Bool-cases, inl, inr, ap, ◌∙◌,
}
use nexal.Prelude.Map
use nexal.Wire.Values.{Values}
use nexal.Wire.Pending.{count, issued, ids}
use nexal.Gateway.Conn.{
  AgentConn, check_closed, dispatch_frame, resolved, is_pending, response_id, set_closed,
  drain_pending,
}
use nexal.Gateway.Conn.Calls.{
  Calls, start, Step, checking, drawing, inserting, sending, receiving, shutting, draining,
  checked_by, step, run,
}
use nexal.Gateway.Conn.Answering.{run-Accounts}

-- The connection is marked closed, and no request is under way to the table.
record IsQuiet (calls : Calls) : Type 0 where
  shut : calls.conn.is_closed ≡ true
  unchecked : calls.checked ≡ 0
  undrawn : calls.drawn ≡ []

module _ {Value : Type 0} ⦃values : Values Value⦄ where
  resolved-keeps :
      (conn : AgentConn) (frame : Value) (id : Option ℕ)
      → ((resolved conn frame id).0.is_closed ≡ conn.is_closed)
        × (conn.pending ≡ [] → (resolved conn frame id).0.pending ≡ [])
  unfolding resolved Map.remove
  resolved-keeps conn frame none = (refl, λ e. e)
  resolved-keeps conn frame (some id) = (refl, λ e. simp e refl)

  dispatch_frame-keeps :
      (conn : AgentConn) (frame : Value) (handler : Bool)
      → ((dispatch_frame conn frame handler).0.is_closed ≡ conn.is_closed)
        × (conn.pending ≡ [] → (dispatch_frame conn frame handler).0.pending ≡ [])
  unfolding dispatch_frame
  dispatch_frame-keeps conn frame handler =
      elim (Bool-cases (is_pending conn (response_id frame))) [
        | inl mine ↦ simp mine (resolved-keeps conn frame (response_id frame))
        | inr other ↦ simp other (refl, λ e. e)
      ]

  step-IsQuiet : (calls : Calls) (s : Step Value) → IsQuiet calls → IsQuiet (step calls s).0
  unfolding step check_closed checked_by set_closed drain_pending Map.contains_key Map.get
  step-IsQuiet calls checking q = simp q.shut q
  step-IsQuiet calls drawing q = simp q.unchecked q
  step-IsQuiet calls (inserting id) q = simp q.undrawn q
  step-IsQuiet calls (sending id method params sent) q = q
  step-IsQuiet calls (receiving frame handler) q = record {
    shut = (dispatch_frame-keeps calls.conn frame handler).0 ∙ q.shut;
    unchecked = q.unchecked;
    undrawn = q.undrawn;
  }
  step-IsQuiet calls shutting q = record {
    shut = refl;
    unchecked = q.unchecked;
    undrawn = q.undrawn;
  }
  step-IsQuiet calls draining q = record {
    shut = q.shut;
    unchecked = q.unchecked;
    undrawn = q.undrawn;
  }

  -- The table stays empty.
  step-pending :
      (calls : Calls) (s : Step Value)
      → IsQuiet calls
      → calls.conn.pending ≡ []
      → (step calls s).0.conn.pending ≡ []
  unfolding step check_closed checked_by set_closed drain_pending Map.contains_key Map.get
  step-pending calls checking q e = simp q.shut e
  step-pending calls drawing q e = simp q.unchecked e
  step-pending calls (inserting id) q e = simp q.undrawn e
  step-pending calls (sending id method params sent) q e = e
  step-pending calls (receiving frame handler) q e =
      (dispatch_frame-keeps calls.conn frame handler).1 e
  step-pending calls shutting q e = e
  step-pending calls draining q e = refl

  run-IsQuiet :
      (more steps : List (Step Value))
      → IsQuiet (run start steps).0
      → IsQuiet (run start (more ++ steps)).0
  unfolding run
  run-IsQuiet [] steps q = q
  run-IsQuiet (s ∷ more) steps q =
      step-IsQuiet (run start (more ++ steps)).0 s (run-IsQuiet more steps q)

  run-pending :
      (more steps : List (Step Value))
      → IsQuiet (run start steps).0
      → (run start steps).0.conn.pending ≡ []
      → (run start (more ++ steps)).0.conn.pending ≡ []
  unfolding run
  run-pending [] steps q e = e
  run-pending (s ∷ more) steps q e =
      step-pending (run start (more ++ steps)).0 s (run-IsQuiet more steps q)
        (run-pending more steps q e)

  shut-IsQuiet :
      (steps : List (Step Value))
      → (run start steps).0.checked ≡ 0
      → (run start steps).0.drawn ≡ []
      → IsQuiet (run start (shutting ∷ steps)).0
  unfolding run step set_closed
  shut-IsQuiet steps e f = record { shut = refl; unchecked = e; undrawn = f }

  drained : (steps : List (Step Value)) → (run start (draining ∷ steps)).0.conn.pending ≡ []
  unfolding run step drain_pending
  drained steps = refl

-- When a connection is closed with no request between its check and its entry in the table, each
-- request that was given an id has had exactly one answer once the table is drained, and whatever
-- comes between the two sections and behind them, it stays so: as long as there are fewer steps
-- than ids.
pub closing-answers :
    {Value : Type 0} ⦃values : Values Value⦄ (steps between after : List (Step Value)) (id : ℕ)
    → length (after ++ (draining ∷ (between ++ (shutting ∷ steps)))) + 2 < u64_mod
    → (run start steps).0.checked ≡ 0
    → (run start steps).0.drawn ≡ []
    → let (calls, answers) = run start (after ++ (draining ∷ (between ++ (shutting ∷ steps)))) in
      (count id answers ≡ issued id calls.conn.next_id) × (calls.conn.pending ≡ [])
closing-answers steps between after id room unchecked undrawn =
    let ended = draining ∷ (between ++ (shutting ∷ steps)) in
    let quiet =
      run-IsQuiet (draining ∷ between) (shutting ∷ steps) (shut-IsQuiet steps unchecked undrawn) in
    let calls = (run start (after ++ ended)).0 in
    let empty = run-pending after ended quiet (drained (between ++ (shutting ∷ steps))) in
    let none_drawn = (run-IsQuiet after ended quiet).undrawn in
    (
      omega (
        arith,
        (run-Accounts (after ++ ended) room).balance id,
        ap (λ m. count id (ids (m ++ calls.conn.pending))) none_drawn,
        ap (λ m. count id (ids m)) empty,
      ),
      empty,
    )
