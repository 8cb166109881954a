-- ===== src/Gateway/Proxies.antt =====
-- crates/nexal-gateway/src/proxy/registry.rs: `ProxyRegistry`, two maps under one lock. The token
-- of a registration is an argument: the source makes a random one.
pub mod Consistency
pub mod Lookups
pub mod Reach
pub mod Refinement
use nexal.Prelude.{
  ℕ, String, string_eq, pair_eq, ◌===◌, Bool, true, false, Option, none, some, List, [], ◌∷◌, ◌≡◌,
  if◌then◌else◌, length,
}
use nexal.Gateway.Keys.{Key, keys_of}
use nexal.Prelude.Map
use nexal.Prelude.Map.{Map}

pub record ProxyEntry : Type 0 where
  pub agent_id : String
  pub name : String
  pub upstream_url : String
  pub headers : Map String String
  pub token : String

pub record Inner : Type 0 where
  pub by_token : Map String ProxyEntry
  pub index : Map Key String

abbrev pub new : Inner
new = record { by_token = []; index = [] }

-- `if let Some(token) = inner.index.remove(&key) { inner.by_token.remove(&token); }`
unfoldable pub drop_token : Inner → Key → Option String → Inner
drop_token inner key none = inner
drop_token inner key (some token) = record {
  by_token = Map.remove inner.by_token token;
  index = Map.remove inner.index key;
}

unfoldable pub remove_key : Inner → Key → Inner
unfolding drop_token
remove_key inner key = drop_token inner key (Map.get inner.index key)

unfoldable pub register :
    Inner → String → String → String → String → Map String String → Inner × ProxyEntry
register inner token agent_id name upstream_url headers =
    let kept = remove_key inner (agent_id, name) in
    let entry : ProxyEntry = record {
      agent_id = agent_id;
      name = name;
      upstream_url = upstream_url;
      headers = headers;
      token = token;
    } in
    (
      record {
        by_token = Map.insert kept.by_token token entry;
        index = Map.insert kept.index (agent_id, name) token;
      },
      entry,
    )

unfoldable pub unregister : Inner → String → String → Inner × Bool
unregister inner agent_id name =
    (remove_key inner (agent_id, name), Map.contains_key inner.index (agent_id, name))

unfoldable pub remove_keys : Inner → List Key → Inner
remove_keys inner [] = inner
remove_keys inner (key ∷ keys) = remove_keys (remove_key inner key) keys

unfoldable pub cleanup_for_agent : Inner → String → Inner × ℕ
cleanup_for_agent inner agent_id =
    let to_remove = keys_of agent_id inner.index in (remove_keys inner to_remove, length to_remove)

unfoldable pub lookup : Inner → String → Option ProxyEntry
lookup inner token = Map.get inner.by_token token
