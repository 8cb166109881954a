-- ===== src/Gateway/Proxies/Reach.antt =====
-- crates/nexal-gateway/src/proxy/registry.rs: the states that the registry reaches.
use nexal.Prelude.{String, string_eq, none, ◌≡◌, arith}
use nexal.Gateway.Keys.{keys_of}
use nexal.Prelude.Map
use nexal.Prelude.Map.{Map}
use nexal.Gateway.Proxies
use nexal.Gateway.Proxies.{Inner, lookup}
use nexal.Gateway.Proxies.Consistency.{
  IsConsistent, register-IsConsistent, remove_key-IsConsistent, remove_keys-IsConsistent,
}

-- The operations of the registry, each under its lock. The token of a registration is new.
pub data Step : Inner → Inner → Type 0 where
  registering :
      {inner : Inner} (token agent_id name url : String) (headers : Map String String)
      → lookup inner token ≡ none
      → Step inner (Proxies.register inner token agent_id name url headers).0
  unregistering :
      {inner : Inner} (agent_id name : String)
      → Step inner (Proxies.unregister inner agent_id name).0
  cleaning :
      {inner : Inner} (agent_id : String) → Step inner (Proxies.cleanup_for_agent inner agent_id).0

pub data Reachable : Inner → Type 0 where
  start : Reachable Proxies.new
  step : {inner inner' : Inner} → Reachable inner → Step inner inner' → Reachable inner'

-- In every state that the operations reach with new tokens, the two maps are inverse to one
-- another, and each entry stands under its own token.
pub Reachable-IsConsistent : {inner : Inner} → Reachable inner → IsConsistent inner
unfolding lookup Proxies.unregister Proxies.cleanup_for_agent Map.get
Reachable-IsConsistent start = record {
  indexed = λ token e h. ground arith;
  own_token = λ token e h. ground arith;
  held = λ key token h. ground arith;
}
Reachable-IsConsistent (step r (registering token a n url headers fresh)) =
    register-IsConsistent _ token a n url headers (Reachable-IsConsistent r) fresh
Reachable-IsConsistent (step r (unregistering a n)) =
    remove_key-IsConsistent _ (a, n) (Reachable-IsConsistent r)
Reachable-IsConsistent (step r (cleaning a)) =
    remove_keys-IsConsistent _ (keys_of a _) (Reachable-IsConsistent r)
