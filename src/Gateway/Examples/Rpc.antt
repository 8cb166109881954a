-- ===== src/Gateway/Examples/Rpc.antt =====
-- The theorems on the handshake and on the connection to an agent at concrete inputs.
use nexal.Prelude.{
  nat_eq, ◌++◌, ℕ, string_eq, Bool, true, Option, none, some, List, [], ◌∷◌, ◌≡◌, ◌≢◌, refl, String,
  ap, arith,
}
use nexal.Prelude.Int.{ℤ, pos, negsuc}
use nexal.Prelude.Map
use nexal.Prelude.Map.{Map}
use nexal.Wire.Values.{Values}
use nexal.Wire.Pending.{Accounts, count, issued}
use nexal.Gateway.Hello.{
  HelloParams, verify_hello, accepted, is_stale, retain, pair_value, hex_digit,
}
use nexal.Gateway.Hello.Replay.{hellos, replayed-accepted}
use nexal.Gateway.Conn.{check_closed, draw_id, insert_pending}
use nexal.Gateway.Conn.Calls.{
  step, checked_by, drawn_by, Step, start, shutting, draining, drawing, checking, receiving,
  sending, inserting, run,
}
use nexal.Gateway.Conn.Closing.{closing-answers}
use nexal.Gateway.Conn.Answering.{run-Accounts}

abbrev pub show : ℕ → String
show n = "1700000000"

abbrev pub any_signature : String → String → List ℕ → Bool
any_signature secret text sig = true

abbrev pub credentials : Map String String
credentials = ("key", "secret") ∷ []

abbrev pub hello : HelloParams
hello = record {
  access_key = "key";
  client_name = "cli";
  ts = 1700000000;
  nonce = "n1";
  signature = "00ff";
}

replayed-accepted_example :
    (verify_hello show any_signature credentials
      (hellos show any_signature credentials
        (verify_hello show any_signature credentials [] 1700000010 hello).0
        ((1700000020, record hello { nonce = "n2" }) ∷ []))
      1700000300
      hello).1
    ≢ accepted
unfolding verify_hello is_stale retain pair_value hex_digit Map.get Map.contains_key
replayed-accepted_example =
    replayed-accepted show any_signature credentials [] 1700000010 1700000300 hello hello
      ((1700000020, record hello { nonce = "n2" }) ∷ []) refl (omega arith, omega arith)
      (omega arith) (omega arith) refl refl

-- Values as a data type
mutual
  pub data Msg : Type 0 where
    nil : Msg
    string : String → Msg
    integer : ℕ → Msg
    negative : ℕ → Msg
    map : Pairs → Msg

  pub data Pairs : Type 0 where
    done : Pairs
    pair : Msg → Msg → Pairs → Pairs

abbrev to_list : Pairs → List (Msg × Msg)
to_list done = []
to_list (pair k v ps) = (k, v) ∷ to_list ps

abbrev to_pairs : List (Msg × Msg) → Pairs
to_pairs [] = done
to_pairs ((k, v) ∷ l) = pair k v (to_pairs l)

pub to_list-to_pairs : (l : List (Msg × Msg)) → to_list (to_pairs l) ≡ l
to_list-to_pairs [] = refl
to_list-to_pairs ((k, v) ∷ l) = ap (λ m. (k, v) ∷ m) (to_list-to_pairs l)

abbrev pub msg_str : Msg → Option String
msg_str (string s) = some s
msg_str nil = none
msg_str (integer n) = none
msg_str (negative n) = none
msg_str (map ps) = none

abbrev msg_map : Msg → Option (List (Msg × Msg))
msg_map (map ps) = some (to_list ps)
msg_map (string s) = none
msg_map nil = none
msg_map (integer n) = none
msg_map (negative n) = none

abbrev msg_u64 : Msg → Option ℕ
msg_u64 (integer n) = some n
msg_u64 (string s) = none
msg_u64 nil = none
msg_u64 (negative n) = none
msg_u64 (map ps) = none

abbrev pub msg_i64 : Msg → Option ℤ
msg_i64 (integer n) = some (pos n)
msg_i64 (negative n) = some (negsuc n)
msg_i64 (string s) = none
msg_i64 nil = none
msg_i64 (map ps) = none

instance abbrev pub msg_values : Values Msg
msg_values = record {
  as_str = msg_str;
  as_map = msg_map;
  as_u64 = msg_u64;
  as_i64 = msg_i64;
  as_array = λ v. none;
  nil = nil;
  string = string;
  integer = integer;
  negative = negative;
  map = λ l. map (to_pairs l);
  as_str-string = λ s. refl;
  as_map-map = λ l. ap some (to_list-to_pairs l);
  as_u64-integer = λ n h. refl;
}

-- The newest step stands first: a request and its answer, and then one that has its id and no entry
-- in the table.
abbrev steps : List (Step Msg)
steps =
    shutting
    ∷ drawing
    ∷ checking
    ∷ receiving (map (pair (string "id") (integer 1) (pair (string "result") nil done))) true
    ∷ sending 1 "initialize" none true
    ∷ inserting 1
    ∷ drawing
    ∷ checking
    ∷ []

run-Accounts_example :
    Accounts
      ((run start steps).0.drawn ++ (run start steps).0.conn.pending)
      (run start steps).0.conn.next_id
      (run start steps).1
run-Accounts_example = run-Accounts steps (omega arith)

-- The first of two requests has been answered, and the second waits; a third comes between the mark
-- and the draining, and a fourth behind it.
abbrev quiet_steps : List (Step Msg)
quiet_steps =
    receiving (map (pair (string "id") (integer 1) (pair (string "result") nil done))) true
    ∷ inserting 2
    ∷ drawing
    ∷ checking
    ∷ inserting 1
    ∷ drawing
    ∷ checking
    ∷ []

abbrev late : List (Step Msg)
late = drawing ∷ checking ∷ []

closing-answers_example :
    let (calls, answers) = run start (late ++ (draining ∷ (late ++ (shutting ∷ quiet_steps)))) in
    (count 2 answers ≡ issued 2 calls.conn.next_id) × (calls.conn.pending ≡ [])
unfolding run step check_closed draw_id checked_by drawn_by Map.contains_key Map.get Map.remove
    insert_pending
closing-answers_example = closing-answers quiet_steps late late 2 (omega arith) refl refl
