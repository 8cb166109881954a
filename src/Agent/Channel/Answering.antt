-- ===== src/Agent/Channel/Answering.antt =====
-- crates/nexal-agent/src/server/channel/dispatch.rs: each request of the agent gets one answer.
use nexal.Prelude.{
  ℕ, ◌+◌, ◌≤◌, ◌<◌, String, string_eq, nat_eq, Bool, true, false, Option, none, some, List, [], ◌∷◌,
  ◌++◌, ◌≡◌, refl, arith, Bool-cases, inl, inr, add64-eq, u64_mod, length, sym, subst,
}
use nexal.Prelude.Map
use nexal.Prelude.Map.{get-insert_self}
use nexal.Wire.Values.{Values}
use nexal.Wire.Pending.{Accounts, Accounts-insert, Accounts-remove}
use nexal.Agent.Channel.{
  MsgpackChannel, Effect, new, write, resolve, request, request_blocking, issue, is_pending,
  resolved, response_id, try_resolve_pending,
}

pub data Step (Value : Type 0) : Type 0 where
  requesting : String → Value → Bool → Step Value
  blocking : String → Value → Bool → Step Value
  receiving : Value → Step Value

unfoldable pub answered : {Value : Type 0} → List (Effect Value) → List ℕ
answered [] = []
answered (resolve id r ∷ es) = id ∷ answered es
answered (write f ∷ es) = answered es

module _ {Value : Type 0} ⦃values : Values Value⦄ where
  unfoldable pub step : MsgpackChannel → Step Value → MsgpackChannel × List (Effect Value)
  step channel (requesting method params sent) =
      let done = request channel method params sent in (done.0, done.2)
  step channel (blocking method params sent) = request_blocking channel method params sent
  step channel (receiving frame) = let done = try_resolve_pending channel frame in (done.0, done.2)

  -- The newest step stands first.
  unfoldable pub run : MsgpackChannel → List (Step Value) → MsgpackChannel × List ℕ
  run channel [] = (channel, [])
  run channel (s ∷ steps) =
      let before = run channel steps in
      let now = step before.0 s in (now.0, answered now.1 ++ before.1)

-- The ids are in balance, and few.
record Valid (bound : ℕ) (channel : MsgpackChannel) (done : List ℕ) : Type 0 where
  accounts : Accounts channel.pending channel.next_id done
  positive : 1 ≤ channel.next_id
  small : channel.next_id ≤ bound

issue-Valid :
    (bound : ℕ) (channel : MsgpackChannel) (done : List ℕ)
    → bound + 1 < u64_mod
    → Valid bound channel done
    → Valid (bound + 1) (issue channel) done
unfolding issue
issue-Valid bound channel done room v =
    let next = add64-eq channel.next_id 1 (omega (arith, room, v.small)) in
    record {
      accounts =
          subst (λ n. Accounts (Map.insert channel.pending channel.next_id tt) n done) (sym next)
            (Accounts-insert channel.pending channel.next_id done tt v.positive v.accounts);
      positive = subst (λ n. 1 ≤ n) (sym next) (omega arith);
      small = subst (λ n. n ≤ bound + 1) (sym next) (omega (arith, v.small));
    }

waits : (channel : MsgpackChannel) → Map.contains_key (issue channel).pending channel.next_id ≡ true
unfolding issue Map.contains_key
waits channel = rw (get-insert_self channel.pending channel.next_id tt) refl

remove-Valid :
    (bound : ℕ) (channel : MsgpackChannel) (done : List ℕ) (id : ℕ)
    → Map.contains_key channel.pending id ≡ true
    → Valid bound channel done
    → Valid bound (record channel { pending = Map.remove channel.pending id }) (id ∷ done)
remove-Valid bound channel done id h v = record {
  accounts = Accounts-remove channel.pending channel.next_id done id h v.accounts;
  positive = v.positive;
  small = v.small;
}

Valid-mono :
    (bound : ℕ) (channel : MsgpackChannel) (done : List ℕ)
    → Valid bound channel done
    → Valid (bound + 1) channel done
Valid-mono bound channel done v = record {
  accounts = v.accounts;
  positive = v.positive;
  small = omega (arith, v.small);
}

module _ {Value : Type 0} ⦃values : Values Value⦄ where
  blocking-Valid :
      (bound : ℕ) (channel : MsgpackChannel) (done : List ℕ) (method : String) (params : Value)
      (sent : Bool)
      → bound + 1 < u64_mod
      → Valid bound channel done
      → Valid
          (bound + 1)
          (request_blocking channel method params sent).0
          (answered (request_blocking channel method params sent).1 ++ done)
  unfolding request_blocking answered
  blocking-Valid bound channel done method params true room v =
      issue-Valid bound channel done room v
  blocking-Valid bound channel done method params false room v =
      remove-Valid (bound + 1) (issue channel) done channel.next_id (waits channel)
        (issue-Valid bound channel done room v)

  resolved-Valid :
      (bound : ℕ) (channel : MsgpackChannel) (done : List ℕ) (frame : Value) (id : Option ℕ)
      → is_pending channel id ≡ true
      → Valid bound channel done
      → Valid bound (resolved channel frame id).0 (answered (resolved channel frame id).2 ++ done)
  unfolding resolved answered is_pending
  resolved-Valid bound channel done frame none h v = ground arith
  resolved-Valid bound channel done frame (some id) h v = remove-Valid bound channel done id h v

  step-Valid :
      (bound : ℕ) (channel : MsgpackChannel) (done : List ℕ) (s : Step Value)
      → bound + 1 < u64_mod
      → Valid bound channel done
      → Valid (bound + 1) (step channel s).0 (answered (step channel s).1 ++ done)
  unfolding step request try_resolve_pending answered
  step-Valid bound channel done (requesting method params true) room v =
      issue-Valid bound channel done room v
  step-Valid bound channel done (requesting method params false) room v =
      issue-Valid bound channel done room v
  step-Valid bound channel done (blocking method params sent) room v =
      blocking-Valid bound channel done method params sent room v
  step-Valid bound channel done (receiving frame) room v =
      elim (Bool-cases (is_pending channel (response_id frame))) [
        | inl mine ↦ simp mine (
            Valid-mono bound _ _
              (resolved-Valid bound channel done frame (response_id frame) mine v))
        | inr other ↦ simp other (Valid-mono bound channel done v)
      ]

  run-Valid :
      (steps : List (Step Value))
      → length steps + 2 < u64_mod
      → Valid (length steps + 1) (run new steps).0 (run new steps).1
  unfolding run
  run-Valid [] room = record {
    accounts = record { balance = λ i. ground arith };
    positive = omega arith;
    small = omega arith;
  }
  run-Valid (s ∷ steps) room =
      let before = run-Valid steps (omega (arith, room)) in
      subst (λ n. Valid n (run new (s ∷ steps)).0 (run new (s ∷ steps)).1) (omega arith)
        (step-Valid (length steps + 1) (run new steps).0 (run new steps).1 s (omega (arith, room))
          before)

-- Whatever the agent asks, blocking or not, and whatever frames come in, an id that was given out
-- either waits or has had its one answer, and no other id has: as long as there are fewer steps
-- than ids.
pub run-channel-Accounts :
    {Value : Type 0} ⦃values : Values Value⦄ (steps : List (Step Value))
    → length steps + 2 < u64_mod
    → Accounts (run new steps).0.pending (run new steps).0.next_id (run new steps).1
run-channel-Accounts steps room = (run-Valid steps room).accounts
