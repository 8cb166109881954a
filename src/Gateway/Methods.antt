-- ===== src/Gateway/Methods.antt =====
-- crates/utils/transport/src/gateway/methods.rs: the names of the gateway's methods.
pub mod Names
use nexal.Prelude.{String, string_eq, ◌===◌, Option, none, some, Bool, true, false, if◌then◌else◌}

pub data GatewayMethod : Type 0 where
  hello : GatewayMethod
  spawn_agent : GatewayMethod
  kill_agent : GatewayMethod
  detach_agent : GatewayMethod
  attach_agent : GatewayMethod
  list_agents : GatewayMethod
  agent_invoke : GatewayMethod
  register_proxy : GatewayMethod
  unregister_proxy : GatewayMethod
  register_stream_proxy : GatewayMethod
  unregister_stream_proxy : GatewayMethod

unfoldable pub as_str : GatewayMethod → String
as_str hello = "gateway/hello"
as_str spawn_agent = "gateway/spawn_agent"
as_str kill_agent = "gateway/kill_agent"
as_str detach_agent = "gateway/detach_agent"
as_str attach_agent = "gateway/attach_agent"
as_str list_agents = "gateway/list_agents"
as_str agent_invoke = "agent/invoke"
as_str register_proxy = "gateway/register_proxy"
as_str unregister_proxy = "gateway/unregister_proxy"
as_str register_stream_proxy = "gateway/register_stream_proxy"
as_str unregister_stream_proxy = "gateway/unregister_stream_proxy"

unfoldable pub parse : String → Option GatewayMethod
parse s =
    if s === "gateway/hello"
    then some hello
    else if s === "gateway/spawn_agent"
    then some spawn_agent
    else if s === "gateway/kill_agent"
    then some kill_agent
    else if s === "gateway/detach_agent"
    then some detach_agent
    else if s === "gateway/attach_agent"
    then some attach_agent
    else if s === "gateway/list_agents"
    then some list_agents
    else if s === "agent/invoke"
    then some agent_invoke
    else if s === "gateway/register_proxy"
    then some register_proxy
    else if s === "gateway/unregister_proxy"
    then some unregister_proxy
    else if s === "gateway/register_stream_proxy"
    then some register_stream_proxy
    else if s === "gateway/unregister_stream_proxy"
    then some unregister_stream_proxy
    else none
