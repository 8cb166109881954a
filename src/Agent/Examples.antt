-- ===== src/Agent/Examples.antt =====
-- The theorem on the agent's channel at a concrete input.
use nexal.Prelude.{List, [], ◌∷◌, false, true, arith}
use nexal.Wire.Pending.{Accounts}
use nexal.Agent.Channel.{new}
use nexal.Agent.Channel.Answering.{Step, blocking, receiving, run, run-channel-Accounts}
use nexal.Gateway.Examples.Rpc.{Msg, msg_values, nil, string, integer, map, pair, done}

abbrev steps : List (Step Msg)
steps =
    receiving (map (pair (string "id") (integer 2) (pair (string "result") nil done)))
    ∷ blocking "skills/read" nil true
    ∷ blocking "skills/list" nil false
    ∷ []

run-channel-Accounts_example :
    Accounts (run new steps).0.pending (run new steps).0.next_id (run new steps).1
run-channel-Accounts_example = run-channel-Accounts steps (omega arith)
