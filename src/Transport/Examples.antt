-- ===== src/Transport/Examples.antt =====
-- The theorems on the transport at concrete inputs.
use nexal.Prelude.{
  ◌⊎◌, ap, sym, ℕ, ◌+◌, ◌≤◌, true, false, Option, none, some, List, [], ◌∷◌, ◌++◌, ◌≡◌, ◌≢◌, refl,
  string_eq, ◌===◌, if◌then◌else◌, arith,
}
use nexal.Gateway.Examples.Rpc.{Msg, string, map, pair, done, msg_values}
use nexal.Transport.Frames.{FrameCodec}
use nexal.Transport.Handle.{send}
use nexal.Transport.Driver.{
  disconnected, event, HeartbeatOptions, binary, ended, Turn, command, tick, message, Output,
  run_accepted_driver,
}
use nexal.Transport.Driver.Mirror.{plain, echoes}
use nexal.Transport.Driver.Losses.{
  EndsBehind, over_after, losses, EndsWithLoss, run_accepted_driver-Mirrors,
}
use nexal.Transport.MessageChannel.{MessageCodec, read_frames, write_messages}
use nexal.Transport.MessageChannel.Framing.{delivered, read_frames-write_messages}
use nexal.Transport.Client.{
  ReconnectOptions, TransportOptions, slept, Round, pending, attempt_rounds, Phase, start,
  run_client_driver,
}
use nexal.Transport.Client.Reconnecting.{rounds-return, run_client_driver-EndsWithLoss}

-- A codec whose frames are the two of the heartbeat
abbrev decode : List ℕ → Option Msg
decode [] = some (map (pair (string "method") (string "ping") done))
decode (b ∷ []) = some (map (pair (string "method") (string "pong") done))
decode (b ∷ c ∷ bytes) = none

abbrev codec : FrameCodec Msg
codec = record {
  decode_frame = decode;
  encode_method = λ method. if method === "ping" then [] else 2 ∷ [];
  decode_frame-ping = refl;
  decode_frame-pong = refl;
}

abbrev opts : HeartbeatOptions
opts = record { interval = 30000; timeout = 10000 }

abbrev turns : List Turn
turns =
    message (binary (7 ∷ 7 ∷ [])) true true
    ∷ tick 30000 true
    ∷ command (some (send (8 ∷ []))) true
    ∷ message ended true true
    ∷ []

run_accepted_driver-Mirrors_example :
    let (outs, over) = run_accepted_driver codec opts true turns in
    (done' : List Turn) × (rest : List Turn) × (ending : List Output) × (turns ≡ done' ++ rest)
    × EndsBehind (over_after codec opts true) done' rest over
    × (plain outs ≡ echoes codec done' ++ ending)
    × ((ending ≡ []) ⊎ (ending ≡ event disconnected ∷ []))
    × (over ≡ false → ending ≡ [])
    × EndsWithLoss outs
    × (losses outs ≤ 1)
run_accepted_driver-Mirrors_example = run_accepted_driver-Mirrors codec opts true turns

abbrev rc : ReconnectOptions
rc = record { attempts = some 3; min_delay = 1000; max_delay = 30000 }

abbrev rounds : List Round
rounds = record { wait = slept; dialled = false } ∷ record { wait = slept; dialled = false } ∷ []

rounds-return_example :
    ((attempt_rounds rc 1 rounds).0 ≢ pending) × ((attempt_rounds rc 1 rounds).2 + 1 ≤ 3)
rounds-return_example = rounds-return rc 1 3 rounds refl (omega arith) (omega arith) (omega arith)

abbrev options : TransportOptions
options = record { heartbeat = some opts; reconnect = some rc }

abbrev phases : List Phase
phases =
    record { turns = turns; rounds = record { wait = slept; dialled = true } ∷ [] }
    ∷ record { turns = turns; rounds = record { wait = slept; dialled = false } ∷ rounds }
    ∷ []

run_client_driver-EndsWithLoss_example :
    EndsWithLoss (run_client_driver codec options (start options) phases).1
    × (losses (run_client_driver codec options (start options) phases).1 ≤ 1)
run_client_driver-EndsWithLoss_example =
    run_client_driver-EndsWithLoss codec options (start options) phases

-- A codec of single bytes
abbrev byte_of : List ℕ → Option ℕ
byte_of [] = none
byte_of (b ∷ []) = some b
byte_of (b ∷ c ∷ bytes) = none

abbrev read_byte : Option (List ℕ) → Option ℕ
read_byte none = none
read_byte (some bytes) = byte_of bytes

abbrev byte_codec : MessageCodec ℕ
byte_codec = record {
  to_vec = λ b. some (b ∷ []);
  from_slice = byte_of;
  from_slice-to_vec = λ b bytes h. ap read_byte (sym h);
}

read_frames-write_messages_example :
    read_frames byte_codec 5 (write_messages byte_codec (7 ∷ 8 ∷ []))
    ≡ delivered byte_codec (7 ∷ 8 ∷ [])
read_frames-write_messages_example =
    read_frames-write_messages byte_codec (7 ∷ 8 ∷ []) 5
      ((7 ∷ [], refl, omega arith), ((8 ∷ [], refl, omega arith), tt)) (omega arith)
