-- ===== src/Gateway/Examples/Sessions.antt =====
-- The theorems on sessions and on method names at concrete inputs. A value is a text here.
use nexal.Prelude.{String, string_eq, pair_eq, ◌===◌, false, not, none, some, [], ◌≡◌, refl}
use nexal.Prelude.Map
use nexal.Gateway.Proxies.{lookup, remove_key}
use nexal.Gateway.Proxies.Consistency.{keep, key_of}
use nexal.Gateway.Proxies.Reach.{Reachable-IsConsistent}
use nexal.Gateway.Agents.{AgentEntry}
use nexal.Gateway.Conn
use nexal.Gateway.Session.{
  ServerConfig, RegisterProxyParams, decoded, invalid, Codec, Gateway, World,
}
use nexal.Gateway.Session.Dispatch.{handle_value, register_proxy}
use nexal.Gateway.Session.Gating.{Locked, handle_value-Locked, register_proxy-refused}
use nexal.Gateway.Examples.{one, one-Reachable, answers, agents}
use nexal.Gateway.Examples.Rpc.{show, any_signature, credentials, hello}

abbrev proxy : RegisterProxyParams
proxy = record { agent_id = "a"; name = "jina"; upstream_url = "https://other"; headers = [] }

abbrev codec : Codec String
codec = record {
  hello = λ v. decoded hello;
  spawn_agent = λ v. invalid "missing field";
  agent_id = λ v. decoded v;
  container_name = λ v. decoded v;
  agent_invoke = λ v. decoded record { agent_id = "a"; method = v; params = none };
  register_proxy = λ v. decoded proxy;
  unregister_proxy = λ v. decoded record { agent_id = "a"; name = v };
  register_stream_proxy = λ v. invalid "missing field";
  nil = "";
}

abbrev cfg : ServerConfig
cfg = record { credentials = credentials; proxy_external_base = "https://gateway/" }

abbrev world : World String
world = record {
  answers = answers;
  invoke = Conn.err Conn.closed;
  token = "t2";
  bind = decoded "127.0.0.1:49201";
  cancel = 8;
  now = 1700000010;
}

abbrev gateway : Gateway
gateway = record { registry = agents; nonce_cache = []; authenticated = false }

handle_value-Locked_example :
    Locked show any_signature codec cfg world gateway "a"
      (handle_value show any_signature codec cfg world gateway "gateway/kill_agent" (some "a"))
handle_value-Locked_example =
    handle_value-Locked show any_signature codec cfg world gateway "gateway/kill_agent" (some "a")
      refl

abbrev agent : AgentEntry
agent = record {
  agent_id = "a";
  container_name = "nexal-a";
  created_at_unix_ms = 1;
  conn = 4;
  port_map = [];
}

register_proxy-refused_example :
    lookup
      (register_proxy show any_signature codec cfg world gateway proxy agent).0.registry.proxies
      "t1"
    ≡ keep (λ old. not (key_of old === ("a", "jina"))) (lookup one "t1")
unfolding lookup one remove_key Map.get Map.insert
register_proxy-refused_example =
    register_proxy-refused show any_signature codec cfg world gateway proxy agent Conn.closed "t1"
      (Reachable-IsConsistent one-Reachable) refl refl
