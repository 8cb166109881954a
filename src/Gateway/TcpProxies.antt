-- ===== src/Gateway/TcpProxies.antt =====
-- crates/nexal-gateway/src/proxy/tcp.rs: `TcpProxyRegistry`. A cancellation token is a number,
-- and an operation also gives the tokens that it cancels.
pub mod Listeners
use nexal.Prelude.{
  ℕ, String, string_eq, pair_eq, ◌===◌, Bool, true, false, Option, none, some, List, [], ◌∷◌, ◌++◌,
  ◌≡◌, if◌then◌else◌, length, arith, inl, inr, ◌⊎◌, Option-cases, Bool-cases, eq_lem, refl, sym,
  ◌∙◌, ap,
}
use nexal.Gateway.Keys.{Key, keys_of}
use nexal.Prelude.Map
use nexal.Prelude.Map.{Map, get-insert, get-remove}

pub record TcpProxyEntry : Type 0 where
  pub listen_addr : String
  pub cancel : ℕ

abbrev pub Inner : Type 0
Inner = Map Key TcpProxyEntry

unfoldable pub cancel_of : Option TcpProxyEntry → List ℕ
cancel_of none = []
cancel_of (some e) = e.cancel ∷ []

-- `if let Some(old) = inner.remove(&key) { old.cancel.cancel(); }`
unfoldable pub remove_key : Inner → Key → Inner × List ℕ
unfolding cancel_of
remove_key inner key = (Map.remove inner key, cancel_of (Map.get inner key))

-- `register` behind the bind, which gave `listen_addr`, with the new token `cancel`
unfoldable pub register : Inner → String → String → String → ℕ → Inner × String × List ℕ
unfolding remove_key
register inner agent_id name listen_addr cancel =
    let removed = remove_key inner (agent_id, name) in
    (
      Map.insert removed.0 (agent_id, name) record { listen_addr = listen_addr; cancel = cancel },
      listen_addr,
      removed.1,
    )

unfoldable pub unregister : Inner → String → String → Inner × Bool × List ℕ
unfolding remove_key
unregister inner agent_id name =
    let removed = remove_key inner (agent_id, name) in
    (removed.0, Map.contains_key inner (agent_id, name), removed.1)

unfoldable pub remove_keys : Inner → List Key → Inner × List ℕ
unfolding remove_key
remove_keys inner [] = (inner, [])
remove_keys inner (key ∷ keys) =
    let removed = remove_key inner key in
    let rest = remove_keys removed.0 keys in (rest.0, removed.1 ++ rest.1)

unfoldable pub cleanup_for_agent : Inner → String → Inner × ℕ × List ℕ
cleanup_for_agent inner agent_id =
    let to_remove = keys_of agent_id inner in
    let removed = remove_keys inner to_remove in (removed.0, length to_remove, removed.1)

address : Option TcpProxyEntry → Option String
address none = none
address (some e) = some e.listen_addr

unfoldable pub get_listen_addr : Inner → String → String → Option String
unfolding address
get_listen_addr inner agent_id name = address (Map.get inner (agent_id, name))
