-- ===== src/Gateway/Session/Dispatch.antt =====
-- crates/nexal-gateway/src/server/session.rs: one function for each arm of `Session::dispatch`, and
-- `Session::handle_value`.
use nexal.Prelude.{
  ℕ, String, string_eq, nat_eq, str_append, Bool, true, false, ◌&&◌, not, Option, none, some, List,
  [], ◌∷◌, if◌then◌else◌, map,
}
use nexal.Prelude.Map
use nexal.Prelude.Map.{Map}
use nexal.Gateway.Hello.{NonceCache, Verdict, verify_hello, accepted, rejected, panicked}
use nexal.Gateway.Conn
use nexal.Gateway.Conn.{JsonRpcError, from_conn_error}
use nexal.Gateway.Methods
use nexal.Gateway.Methods.{GatewayMethod, parse}
use nexal.Gateway.Proxies
use nexal.Gateway.TcpProxies
use nexal.Gateway.Agents
use nexal.Gateway.Agents.{AgentEntry}
use nexal.Gateway.Session.{
  ServerConfig, RegisterProxyParams, UnregisterProxyParams, RegisterStreamProxyParams, Reply, ok,
  err, aborted, Decode, decoded, invalid, Codec, AgentCall, forward, proxy_register,
  proxy_unregister, outer, Gateway, World, rpc_error, registry_err, container_socket_path,
  trim_slashes, hello_response, agent_response, ok_response, agents_response, invoke_response,
  proxy_response, stream_proxy_response,
}

abbrev pub Outcome : Type 0 → Type 0
Outcome Value = Gateway × Reply Value × List (AgentCall Value)

abbrev no_agent : String → JsonRpcError
no_agent id = rpc_error 32009 (str_append "no agent " id)

unfoldable pub is_hello : Option GatewayMethod → Bool
is_hello (some Methods.hello) = true
is_hello m = false

module _ {Value : Type 0} (show : ℕ → String) (hmac_verify : String → String → List ℕ → Bool)
    (codec : Codec Value) (cfg : ServerConfig) (world : World Value) where
  -- `super::parse_params(params)?`
  unfoldable pub with_params :
      {A : Type 0} → Gateway → Decode A → (A → Outcome Value) → Outcome Value
  with_params g (invalid e) next = (g, err (rpc_error 32601 (str_append "invalid params: " e)), [])
  with_params g (decoded a) next = next a

  unfoldable pub greet : Gateway → NonceCache × Verdict → Outcome Value
  greet g (cache, accepted) =
      (record g { nonce_cache = cache; authenticated = true }, ok hello_response, [])
  greet g (cache, rejected message) =
      (record g { nonce_cache = cache }, err (rpc_error 32000 message), [])
  greet g (cache, panicked) = (record g { nonce_cache = cache }, aborted, [])

  agent_reply : Agents.Result AgentEntry → Reply Value
  agent_reply (Agents.ok e) = ok (agent_response e.agent_id e.container_name)
  agent_reply (Agents.err e) = err (registry_err e)

  done_reply : Agents.Result (Unit {0}) → Reply Value
  done_reply (Agents.ok _) = ok (ok_response true)
  done_reply (Agents.err e) = err (registry_err e)

  unfoldable pub of_agents :
      {A : Type 0} → Gateway → (Agents.Result A → Reply Value) → Agents.Outcome A → Outcome Value
  of_agents g reply (registry, result, effects) =
      (record g { registry = registry }, reply result, map outer effects)

  invoke_reply : Conn.Result Value → Reply Value
  invoke_reply (Conn.ok v) = ok (invoke_response v)
  invoke_reply (Conn.err e) = err (from_conn_error e)

  -- `registry.get(…).ok_or_else(…)?`
  unfoldable pub with_agent :
      Gateway → String → Option AgentEntry → (AgentEntry → Outcome Value) → Outcome Value
  with_agent g id none next = (g, err (no_agent id), [])
  with_agent g id (some entry) next = next entry

  unfoldable pub unregister_http : Gateway → String → String → Gateway × Bool
  unregister_http g agent_id name =
      let removed = Proxies.unregister g.registry.proxies agent_id name in
      (record g { registry = record (g.registry) { proxies = removed.0 } }, removed.1)

  -- Behind the agent's answer: an error takes the registration back.
  unfoldable pub proxy_done :
      Gateway → RegisterProxyParams → String → Conn.Result Value → Gateway × Reply Value
  unfolding unregister_http
  proxy_done g p token (Conn.ok v) = (g, ok (proxy_response token (container_socket_path p.name)))
  proxy_done g p token (Conn.err e) =
      ((unregister_http g p.agent_id p.name).0, err (from_conn_error e))

  unfoldable pub register_proxy : Gateway → RegisterProxyParams → AgentEntry → Outcome Value
  unfolding proxy_done
  register_proxy g p entry =
      let registered =
        Proxies.register g.registry.proxies world.token p.agent_id p.name p.upstream_url
          p.headers in
      let done =
        proxy_done (record g { registry = record (g.registry) { proxies = registered.0 } }) p
          registered.1.token world.invoke in
      (
        done.0,
        done.1,
        proxy_register entry.conn (container_socket_path p.name) (
              str_append (trim_slashes cfg.proxy_external_base)
                (str_append "/p/" registered.1.token))
            ∷ [],
      )

  told : String → Option AgentEntry → List (AgentCall Value)
  told name none = []
  told name (some entry) = proxy_unregister entry.conn (container_socket_path name) ∷ []

  unfoldable pub unregister_proxy : Gateway → UnregisterProxyParams → Outcome Value
  unfolding told unregister_http
  unregister_proxy g p =
      let removed = unregister_http g p.agent_id p.name in
      (removed.0, ok (ok_response removed.1), told p.name (Agents.get g.registry p.agent_id))

  bound : Gateway → RegisterStreamProxyParams → Decode String → Outcome Value
  bound g p (invalid e) = (g, err (rpc_error 32019 e), [])
  bound g p (decoded listen_addr) =
      let done =
        TcpProxies.register g.registry.tcp_proxies p.agent_id p.name listen_addr world.cancel in
      (
        record g { registry = record (g.registry) { tcp_proxies = done.0 } },
        ok (stream_proxy_response done.1),
        map (λ c. outer (Agents.cancel c)) done.2,
      )

  published : Gateway → RegisterStreamProxyParams → Option String → Outcome Value
  unfolding bound
  published g p none = (
    g,
    err (
        rpc_error 32601 (
          str_append "port " (
            str_append (show p.container_port)
              (str_append " not published for agent " p.agent_id)))),
    [],
  )
  published g p (some upstream_addr) = bound g p world.bind

  unfoldable pub register_stream_proxy :
      Gateway → RegisterStreamProxyParams → AgentEntry → Outcome Value
  unfolding published
  register_stream_proxy g p entry = published g p (Map.get entry.port_map p.container_port)

  unfoldable pub unregister_stream_proxy : Gateway → UnregisterProxyParams → Outcome Value
  unregister_stream_proxy g p =
      let done = TcpProxies.unregister g.registry.tcp_proxies p.agent_id p.name in
      (
        record g { registry = record (g.registry) { tcp_proxies = done.0 } },
        ok (ok_response done.1),
        map (λ c. outer (Agents.cancel c)) done.2,
      )

  unfoldable pub dispatch_method : Gateway → String → Option GatewayMethod → Value → Outcome Value
  unfolding with_params of_agents with_agent greet agent_reply done_reply invoke_reply
  dispatch_method g name none params =
      (g, err (rpc_error 32600 (str_append "unknown method: " name)), [])
  dispatch_method g name (some Methods.hello) params =
      with_params g (codec.hello params)
        (λ p. greet g (verify_hello show hmac_verify cfg.credentials g.nonce_cache world.now p))
  dispatch_method g name (some Methods.spawn_agent) params =
      with_params g (codec.spawn_agent params) (λ p.
        of_agents g agent_reply
          (Agents.spawn world.answers g.registry p.name p.image p.env p.labels p.extra_ports))
  dispatch_method g name (some Methods.kill_agent) params =
      with_params g (codec.agent_id params)
        (λ id. of_agents g done_reply (Agents.kill world.answers g.registry id))
  dispatch_method g name (some Methods.detach_agent) params =
      with_params g (codec.agent_id params)
        (λ id. of_agents g done_reply (Agents.detach g.registry id))
  dispatch_method g name (some Methods.attach_agent) params =
      with_params g (codec.container_name params)
        (λ c. of_agents g agent_reply (Agents.attach world.answers g.registry c))
  dispatch_method g name (some Methods.list_agents) params =
      (g, ok (agents_response (Agents.list g.registry)), [])
  dispatch_method g name (some Methods.agent_invoke) params =
      with_params g (codec.agent_invoke params) (λ p.
        with_agent g p.agent_id (Agents.get g.registry p.agent_id)
          (λ entry. (g, invoke_reply world.invoke, forward entry.conn p.method p.params ∷ [])))
  dispatch_method g name (some Methods.register_proxy) params =
      with_params g (codec.register_proxy params)
        (λ p. with_agent g p.agent_id (Agents.get g.registry p.agent_id) (register_proxy g p))
  dispatch_method g name (some Methods.unregister_proxy) params =
      with_params g (codec.unregister_proxy params) (unregister_proxy g)
  dispatch_method g name (some Methods.register_stream_proxy) params =
      with_params g (codec.register_stream_proxy params) (λ p.
        with_agent g p.agent_id (Agents.get g.registry p.agent_id) (register_stream_proxy g p))
  dispatch_method g name (some Methods.unregister_stream_proxy) params =
      with_params g (codec.unregister_proxy params) (unregister_stream_proxy g)

  abbrev pub or_nil : Option Value → Value
  or_nil none = codec.nil
  or_nil (some v) = v

  -- `handle_value` of a decoded request with an id, behind the test for the id
  unfoldable pub handle_value : Gateway → String → Option Value → Outcome Value
  unfolding dispatch_method is_hello
  handle_value g name params =
      if not g.authenticated && not (is_hello (parse name))
      then (g, err (rpc_error 31999 "send gateway/hello first"), [])
      else dispatch_method g name (parse name) (or_nil params)
