-- ===== src/Wire/Pending.antt =====
-- The table of requests that wait for an answer, as `AgentConn` of
-- crates/nexal-gateway/src/agent_conn.rs and `MsgpackChannel` of
-- crates/nexal-agent/src/server/channel/dispatch.rs keep it: ids count up from 1, and each id has
-- the sender of one answer.
use nexal.Prelude.{
  ℕ, ◌+◌, ◌≤◌, nat_eq, ◌==◌, true, ◌&&◌, List, [], ◌∷◌, ◌++◌, ◌≡◌, if◌then◌else◌, leb, ltb, arith,
  is_some,
}
use nexal.Prelude.Map
use nexal.Prelude.Map.{Map, get-remove}

abbrev pub count : ℕ → List ℕ → ℕ
count i [] = 0
count i (j ∷ js) = (if i == j then 1 else 0) + count i js

abbrev pub ids : {W : Type 0} → Map ℕ W → List ℕ
ids [] = []
ids ((i, w) ∷ m) = i ∷ ids m

pub count-append : (i : ℕ) (l m : List ℕ) → count i (l ++ m) ≡ count i l + count i m
count-append i [] m = omega arith
count-append i (j ∷ l) m = ground (arith, count-append i l m)

module _ {W : Type 0} where
  pub count-remove :
      (m : Map ℕ W) (i j : ℕ)
      → count i (ids (Map.remove m j)) ≡ (if i == j then 0 else count i (ids m))
  unfolding Map.remove
  count-remove [] i j = ground arith
  count-remove ((k, w) ∷ m) i j = ground (arith, count-remove m i j)

  pub get-count : (m : Map ℕ W) (i : ℕ) → is_some (Map.get m i) ≡ ltb 0 (count i (ids m))
  unfolding Map.get
  get-count [] i = ground arith
  get-count ((k, w) ∷ m) i = ground (arith, get-count m i)

abbrev pub issued : ℕ → ℕ → ℕ
issued i next_id = if leb 1 i && ltb i next_id then 1 else 0

-- Each id that was given out either waits or has had its one answer; no other id does.
pub record Accounts {W : Type 0} (pending : Map ℕ W) (next_id : ℕ) (resolved : List ℕ)
    : Type 0 where
  pub balance : (i : ℕ) → count i (ids pending) + count i resolved ≡ issued i next_id

pub Accounts-insert :
    {W : Type 0} (pending : Map ℕ W) (next_id : ℕ) (resolved : List ℕ) (w : W)
    → 1 ≤ next_id
    → Accounts pending next_id resolved
    → Accounts (Map.insert pending next_id w) (next_id + 1) resolved
unfolding Map.insert
Accounts-insert pending n resolved w positive a = record {
  balance = λ i. ground (arith, a.balance i, count-remove pending i n);
}

pub Accounts-remove :
    {W : Type 0} (pending : Map ℕ W) (next_id : ℕ) (resolved : List ℕ) (j : ℕ)
    → Map.contains_key pending j ≡ true
    → Accounts pending next_id resolved
    → Accounts (Map.remove pending j) next_id (j ∷ resolved)
unfolding Map.contains_key
Accounts-remove pending n resolved j h a = record {
  balance = λ i.
      ground (arith, a.balance i, a.balance j, count-remove pending i j, get-count pending j, h);
}

pub Accounts-drain :
    {W : Type 0} (pending : Map ℕ W) (next_id : ℕ) (resolved : List ℕ)
    → Accounts pending next_id resolved
    → Accounts {W = W} [] next_id (ids pending ++ resolved)
Accounts-drain pending n resolved a = record {
  balance = λ i. ground (arith, a.balance i, count-append i (ids pending) resolved);
}
