-- ===== src/Gateway/Conn/Balance.antt =====
-- crates/nexal-gateway/src/agent_conn.rs: the balance of the ids of an `AgentConn`, and that each
-- section keeps it.
use nexal.Prelude.{
  ℕ, ◌+◌, ◌≤◌, ◌<◌, ◌==◌, String, string_eq, nat_eq, Bool, true, false, Option, none, some, List,
  [], ◌∷◌, ◌++◌, ◌≡◌, refl, arith, Bool-cases, inl, inr, add64-eq, u64_mod, length, ap, sym, subst,
  if◌then◌else◌,
}
use nexal.Prelude.Map
use nexal.Prelude.Map.{Map}
use nexal.Wire.Values.{Values, map_get, map_str}
use nexal.Wire.Pending.{ids, count, issued, count-append, count-remove, get-count}
use nexal.Gateway.Conn.{
  AgentConnError, draw_id, insert_pending, check_closed, write_request, dispatch_frame, incoming,
  notification, set_closed, is_pending, resolved, drain, drain_pending, response_id,
}
use nexal.Gateway.Conn.Calls.{
  Calls, start, Step, checking, drawing, inserting, sending, receiving, shutting, draining,
  answered, checked_by, drawn_by, step, run,
}

pub answered-drain :
    (Value : Type 0) (pending : Map ℕ (Unit {0}))
    → answered (drain {Value = Value} pending) ≡ ids pending
unfolding answered drain
answered-drain Value [] = refl
answered-drain Value ((id, tx) ∷ pending) = ap (λ l. id ∷ l) (answered-drain Value pending)

-- An id that was given out is drawn and not yet in the table, waits there, or has been answered.
abbrev pub IsBalanced : Map ℕ (Unit {0}) → Map ℕ (Unit {0}) → ℕ → List ℕ → ℕ → Type 0
IsBalanced drawn pending next_id done i =
    count i (ids drawn) + (count i (ids pending) + count i done) ≡ issued i next_id

-- The ids are in balance, and few.
pub record Valid (bound : ℕ) (calls : Calls) (done : List ℕ) : Type 0 where
  pub balance : (i : ℕ) → IsBalanced calls.drawn calls.conn.pending calls.conn.next_id done i
  pub positive : 1 ≤ calls.conn.next_id
  pub small : calls.conn.next_id ≤ bound

Valid-mono :
    (bound : ℕ) (calls : Calls) (done : List ℕ)
    → Valid bound calls done
    → Valid (bound + 1) calls done
Valid-mono bound calls done v = record {
  balance = v.balance;
  positive = v.positive;
  small = omega (arith, v.small);
}

checked-Valid :
    (bound : ℕ) (calls : Calls) (done : List ℕ) (check : Option AgentConnError)
    → Valid bound calls done
    → Valid (bound + 1) (checked_by calls check) done
unfolding checked_by
checked-Valid bound calls done none v = record {
  balance = v.balance;
  positive = v.positive;
  small = omega (arith, v.small);
}
checked-Valid bound calls done (some e) v = Valid-mono bound calls done v

issued-next :
    (i next_id : ℕ)
    → 1 ≤ next_id
    → issued i (next_id + 1) ≡ (if i == next_id then 1 else 0) + issued i next_id
issued-next i n h = ground arith

drawn-Valid :
    (bound : ℕ) (calls : Calls) (done : List ℕ)
    → bound + 1 < u64_mod
    → Valid bound calls done
    → Valid (bound + 1) (drawn_by calls (draw_id calls.conn)) done
unfolding drawn_by draw_id
drawn-Valid bound calls done room v =
    let next = add64-eq calls.conn.next_id 1 (omega (arith, room, v.small)) in
    record {
      balance = λ i.
          simp (next, issued-next i calls.conn.next_id v.positive) (omega (arith, v.balance i));
      positive = subst (λ n. 1 ≤ n) (sym next) (omega arith);
      small = subst (λ n. n ≤ bound + 1) (sym next) (omega (arith, v.small));
    }

count-insert :
    (pending : Map ℕ (Unit {0})) (i j : ℕ)
    → count i (ids (Map.insert pending j tt)) ≡ (if i == j then 1 else count i (ids pending))
unfolding Map.insert
count-insert pending i j = ground (arith, count-remove pending i j)

inserted-IsBalanced :
    (drawn pending : Map ℕ (Unit {0})) (next_id : ℕ) (done : List ℕ) (j : ℕ)
    → Map.contains_key drawn j ≡ true
    → ((i : ℕ) → IsBalanced drawn pending next_id done i)
    → (i : ℕ) → IsBalanced (Map.remove drawn j) (Map.insert pending j tt) next_id done i
unfolding Map.contains_key
inserted-IsBalanced drawn pending n done j h balance i = ground (
  arith,
  balance i,
  balance j,
  count-remove drawn i j,
  count-insert pending i j,
  get-count drawn j,
  h,
)

resolved-IsBalanced :
    (drawn pending : Map ℕ (Unit {0})) (next_id : ℕ) (done : List ℕ) (j : ℕ)
    → Map.contains_key pending j ≡ true
    → ((i : ℕ) → IsBalanced drawn pending next_id done i)
    → (i : ℕ) → IsBalanced drawn (Map.remove pending j) next_id (j ∷ done) i
unfolding Map.contains_key
resolved-IsBalanced drawn pending n done j h balance i =
    ground (arith, balance i, balance j, count-remove pending i j, get-count pending j, h)

module _ {Value : Type 0} ⦃values : Values Value⦄ where
  notification-answered :
      (frame : Value) (method : Option String) → answered (notification frame method).1 ≡ []
  unfolding notification answered
  notification-answered frame none = refl
  notification-answered frame (some method) = refl

  incoming-answered :
      (frame : Value) (handler : Bool) (id : Option Value)
      → answered (incoming frame handler id).1 ≡ []
  unfolding incoming answered
  incoming-answered frame handler none = notification-answered frame (map_str frame "method")
  incoming-answered frame true (some id) = refl
  incoming-answered frame false (some id) = notification-answered frame (map_str frame "method")

  sent-answered :
      (id : ℕ) (method : String) (params : Option Value) (sent : Bool)
      → answered (write_request id method params sent).1 ≡ []
  unfolding write_request answered
  sent-answered id method params true = refl
  sent-answered id method params false = refl

  resolved-Valid :
      (bound : ℕ) (calls : Calls) (done : List ℕ) (frame : Value) (id : Option ℕ)
      → is_pending calls.conn id ≡ true
      → Valid bound calls done
      → Valid
          (bound + 1)
          (record calls { conn = (resolved calls.conn frame id).0 })
          (answered (resolved calls.conn frame id).2 ++ done)
  unfolding resolved answered is_pending
  resolved-Valid bound calls done frame none h v = ground arith
  resolved-Valid bound calls done frame (some id) h v = record {
    balance =
        resolved-IsBalanced calls.drawn calls.conn.pending calls.conn.next_id done id h v.balance;
    positive = v.positive;
    small = omega (arith, v.small);
  }

  received-Valid :
      (bound : ℕ) (calls : Calls) (done : List ℕ) (frame : Value) (handler : Bool)
      → Valid bound calls done
      → Valid
          (bound + 1)
          (record calls { conn = (dispatch_frame calls.conn frame handler).0 })
          (answered (dispatch_frame calls.conn frame handler).2 ++ done)
  unfolding dispatch_frame
  received-Valid bound calls done frame handler v =
      elim (Bool-cases (is_pending calls.conn (response_id frame))) [
        | inl mine ↦ simp mine (resolved-Valid bound calls done frame (response_id frame) mine v)
        | inr other ↦
            simp (other, incoming-answered frame handler (map_get frame "id"))
              (Valid-mono bound calls done v)
      ]

  step-Valid :
      (bound : ℕ) (calls : Calls) (done : List ℕ) (s : Step Value)
      → bound + 1 < u64_mod
      → Valid bound calls done
      → Valid (bound + 1) (step calls s).0 (answered (step calls s).1 ++ done)
  unfolding step answered set_closed drain_pending insert_pending
  step-Valid bound calls done checking room v =
      checked-Valid bound calls done (check_closed calls.conn) v
  step-Valid bound calls done drawing room v = elim (Bool-cases (calls.checked == 0)) [
    | inl no_call ↦ simp no_call (Valid-mono bound calls done v)
    | inr call ↦ simp call (drawn-Valid bound calls done room v)
  ]
  step-Valid bound calls done (inserting id) room v =
      elim (Bool-cases (Map.contains_key calls.drawn id)) [
        | inl mine ↦ simp mine record {
          balance =
              inserted-IsBalanced calls.drawn calls.conn.pending calls.conn.next_id done id mine
                v.balance;
          positive = v.positive;
          small = omega (arith, v.small);
        }
        | inr other ↦ simp other (Valid-mono bound calls done v)
      ]
  step-Valid bound calls done (sending id method params sent) room v =
      simp (sent-answered id method params sent) (Valid-mono bound calls done v)
  step-Valid bound calls done (receiving frame handler) room v =
      received-Valid bound calls done frame handler v
  step-Valid bound calls done shutting room v = record {
    balance = v.balance;
    positive = v.positive;
    small = omega (arith, v.small);
  }
  step-Valid bound calls done draining room v =
      simp (answered-drain Value calls.conn.pending) record {
        balance = λ i. ground (arith, v.balance i, count-append i (ids calls.conn.pending) done);
        positive = v.positive;
        small = omega (arith, v.small);
      }

  pub run-Valid :
      (steps : List (Step Value))
      → length steps + 2 < u64_mod
      → Valid (length steps + 1) (run start steps).0 (run start steps).1
  unfolding run
  run-Valid [] room = record {
    balance = λ i. ground arith;
    positive = omega arith;
    small = omega arith;
  }
  run-Valid (s ∷ steps) room =
      subst (λ n. Valid n (run start (s ∷ steps)).0 (run start (s ∷ steps)).1) (omega arith)
        (step-Valid (length steps + 1) (run start steps).0 (run start steps).1 s
          (omega (arith, room)) (run-Valid steps (omega (arith, room))))

pub ids-append :
    (i : ℕ) (l m : Map ℕ (Unit {0})) → count i (ids (l ++ m)) ≡ count i (ids l) + count i (ids m)
ids-append i [] m = omega arith
ids-append i ((j, w) ∷ l) m = ground (arith, ids-append i l m)
