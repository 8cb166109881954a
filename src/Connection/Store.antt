-- ===== src/Connection/Store.antt =====
-- crates/utils/transport/src/connection.rs: the states of the streams, which the connection and the
-- handles of the streams share.
use nexal.Prelude.{ℕ, zero, suc, String, List, [], ◌∷◌, ◌++◌}
use nexal.Prelude.Map.{Map}
use nexal.Connection.Channel.{ChannelState, Effect, reject_all_pending}

-- An operation on the state that stands at a place
unfoldable pub at :
    {E : Type 0}
    → (ChannelState → ChannelState × List E)
    → List ChannelState
    → ℕ
    → List ChannelState × List E
at op [] place = ([], [])
at op (c ∷ cs) zero = ((op c).0 ∷ cs, (op c).1)
at op (c ∷ cs) (suc place) = let rest = at op cs place in (c ∷ rest.0, rest.1)

-- The loop over the streams in `reject_all`
unfoldable pub reject_each :
    {Value Frame : Type 0}
    → String
    → List ChannelState
    → Map String ℕ
    → List ChannelState × List (Effect Value Frame)
unfolding at
reject_each reason channels [] = (channels, [])
reject_each reason channels ((id, place) ∷ streams) =
    let one = at (reject_all_pending reason) channels place in
    let rest = reject_each reason one.0 streams in (rest.0, one.1 ++ rest.1)
