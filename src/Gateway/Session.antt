-- ===== src/Gateway/Session.antt =====
-- crates/nexal-gateway/src/server/session.rs: `Session::handle_value` and `Session::dispatch`. The
-- decoding of parameters and the encoding of answers are serde's, and a parameter. What an agent
-- answers to `invoke` and what a bind gives are arguments too, and the calls on agents are given
-- with the answer.
pub mod Dispatch
pub mod Gating
use nexal.Prelude.{
  ℕ, String, string_eq, nat_eq, str_append, Bool, true, false, ◌&&◌, not, Option, none, some, List,
  [], ◌∷◌, ◌++◌, ◌≡◌, if◌then◌else◌, map, ◌==◌,
}
use Prim.Native.String.{[], ◌∷◌}
use Prim.Native.Char.{Char, code}
use nexal.Prelude.Int.{ℤ, negsuc}
use nexal.Prelude.Map
use nexal.Prelude.Map.{Map}
use nexal.Gateway.Hello.{
  HelloParams, NonceCache, Verdict, verify_hello, accepted, rejected, panicked,
}
use nexal.Gateway.Conn
use nexal.Gateway.Conn.{JsonRpcError, from_conn_error}
use nexal.Gateway.Methods
use nexal.Gateway.Methods.{GatewayMethod, parse}
use nexal.Gateway.Proxies
use nexal.Gateway.TcpProxies
use nexal.Gateway.Agents
use nexal.Gateway.Agents.{AgentRegistry, AgentEntry, Answers, RegistryError, sanitize}

pub record ServerConfig : Type 0 where
  pub credentials : Map String String
  pub proxy_external_base : String

pub record SpawnAgentParams : Type 0 where
  pub name : String
  pub image : Option String
  pub env : Map String String
  pub labels : Map String String
  pub extra_ports : List ℕ

pub record AgentInvokeParams (Value : Type 0) : Type 0 where
  pub agent_id : String
  pub method : String
  pub params : Option Value

pub record RegisterProxyParams : Type 0 where
  pub agent_id : String
  pub name : String
  pub upstream_url : String
  pub headers : Map String String

-- Also of `UnregisterStreamProxyParams`
pub record UnregisterProxyParams : Type 0 where
  pub agent_id : String
  pub name : String

pub record RegisterStreamProxyParams : Type 0 where
  pub agent_id : String
  pub name : String
  pub container_port : ℕ

-- The answers, before they are encoded
pub data Response (Value : Type 0) : Type 0 where
  hello_response : Response Value
  agent_response : String → String → Response Value
  ok_response : Bool → Response Value
  agents_response : List AgentEntry → Response Value
  invoke_response : Value → Response Value
  proxy_response : String → String → Response Value
  stream_proxy_response : String → Response Value

pub data Reply (Value : Type 0) : Type 0 where
  ok : Response Value → Reply Value
  err : JsonRpcError → Reply Value
  aborted : Reply Value

-- What serde decodes; `invalid` has its error text.
pub data Decode (A : Type 0) : Type 0 where
  decoded : A → Decode A
  invalid : String → Decode A

pub record Codec (Value : Type 0) : Type 0 where
  pub hello : Value → Decode HelloParams
  pub spawn_agent : Value → Decode SpawnAgentParams
  pub agent_id : Value → Decode String
  pub container_name : Value → Decode String
  pub agent_invoke : Value → Decode (AgentInvokeParams Value)
  pub register_proxy : Value → Decode RegisterProxyParams
  pub unregister_proxy : Value → Decode UnregisterProxyParams
  pub register_stream_proxy : Value → Decode RegisterStreamProxyParams
  pub nil : Value

-- `AgentMethod::ProxyRegister` and `AgentMethod::ProxyUnregister` with their parameters, and what
-- the client asks to pass on, and the calls on the backend and the listeners
pub data AgentCall (Value : Type 0) : Type 0 where
  forward : ℕ → String → Option Value → AgentCall Value
  proxy_register : ℕ → String → String → AgentCall Value
  proxy_unregister : ℕ → String → AgentCall Value
  outer : Agents.Effect → AgentCall Value

pub record Gateway : Type 0 where
  pub registry : AgentRegistry
  pub nonce_cache : NonceCache
  pub authenticated : Bool

-- What the world gives to one request
pub record World (Value : Type 0) : Type 0 where
  pub answers : Answers
  pub invoke : Conn.Result Value
  pub token : String
  pub bind : Decode String
  pub cancel : ℕ
  pub now : ℕ

abbrev pub rpc_error : ℕ → String → JsonRpcError
rpc_error c message = record { code = negsuc c; message = message }

-- An error of the backend or of the dial carries its text.
unfoldable pub registry_err : RegistryError → JsonRpcError
registry_err (Agents.backend e) = rpc_error 32019 e
registry_err (Agents.agent_conn e) = rpc_error 32019 e
registry_err (Agents.unknown_agent id) = rpc_error 32009 (str_append "unknown agent " id)
registry_err (Agents.unknown_container name) =
    rpc_error 32009 (str_append "unknown container " name)

unfoldable pub container_socket_path : String → String
container_socket_path name = str_append "/run/nexal/proxy/" (str_append (sanitize name) ".socket")

drop_slash : Char → String → String
drop_slash c [] = if code c == 47 then [] else c ∷ []
drop_slash c (d ∷ s) = c ∷ d ∷ s

-- `trim_end_matches('/')`
unfoldable pub trim_slashes : String → String
unfolding drop_slash
trim_slashes [] = []
trim_slashes (c ∷ s) = drop_slash c (trim_slashes s)
