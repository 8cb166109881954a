-- ===== src/Gateway/Session/Gating.antt =====
-- crates/nexal-gateway/src/server/session.rs: what a session may do before its hello, and what a
-- registration leaves behind when the agent refuses it.
use nexal.Prelude.{
  ℕ, String, string_eq, pair_eq, ◌===◌, Bool, true, false, not, Option, none, some, List, [], ◌≡◌,
  refl, sym, ◌∙◌, ap, if◌then◌else◌, arith, Bool-cases, inl, inr, eq_lem,
}
use nexal.Gateway.Hello.{
  HelloParams, NonceCache, Verdict, verify_hello, accepted, rejected, panicked,
}
use nexal.Gateway.Conn
use nexal.Gateway.Methods
use nexal.Gateway.Methods.{GatewayMethod, parse}
use nexal.Prelude.Map
use nexal.Prelude.Map.{Map}
use nexal.Gateway.Keys.{Key}
use nexal.Gateway.Proxies.{lookup, ProxyEntry}
use nexal.Gateway.Proxies
use nexal.Gateway.Proxies.Consistency.{IsConsistent, keep, key_of, register-IsConsistent}
use nexal.Gateway.Proxies.Lookups.{lookup-register, lookup-unregister}
use nexal.Gateway.Agents.{AgentEntry}
use nexal.Gateway.Session.{
  ServerConfig, RegisterProxyParams, Decode, decoded, invalid, Codec, Gateway, World,
}
use nexal.Gateway.Session.Dispatch.{
  Outcome, handle_value, dispatch_method, is_hello, greet, with_params, register_proxy, proxy_done,
  or_nil, unregister_http,
}

module _ {Value : Type 0} (show : ℕ → String) (hmac_verify : String → String → List ℕ → Bool)
    (codec : Codec Value) (cfg : ServerConfig) (world : World Value) where
  -- The registry is untouched, no call is made, and the session is open after it only by a hello
  -- that verified.
  pub record Locked (g : Gateway) (params : Value) (r : Outcome Value) : Type 0 where
    pub registry : r.0.registry ≡ g.registry
    pub calls : r.2 ≡ []
    pub opened :
        r.0.authenticated ≡ true
        → (p : HelloParams) × (codec.hello params ≡ decoded p)
          × ((verify_hello show hmac_verify cfg.credentials g.nonce_cache world.now p).1 ≡ accepted)

  greet-Locked :
      (g : Gateway) (params : Value) (p : HelloParams) (verified : NonceCache × Verdict)
      → g.authenticated ≡ false
      → codec.hello params ≡ decoded p
      → verify_hello show hmac_verify cfg.credentials g.nonce_cache world.now p ≡ verified
      → Locked g params (greet show hmac_verify codec cfg world g verified)
  unfolding greet
  greet-Locked g params p (cache, accepted) closed e v = record {
    registry = refl;
    calls = refl;
    opened = λ h. (p, e, ap (λ r. r.1) v);
  }
  greet-Locked g params p (cache, rejected m) closed e v = record {
    registry = refl;
    calls = refl;
    opened = λ h. ground (arith, closed, h);
  }
  greet-Locked g params p (cache, panicked) closed e v = record {
    registry = refl;
    calls = refl;
    opened = λ h. ground (arith, closed, h);
  }

  decode-Locked :
      (g : Gateway) (params : Value) (d : Decode HelloParams)
      → g.authenticated ≡ false
      → codec.hello params ≡ d
      → Locked g params (
          with_params show hmac_verify codec cfg world g d (λ p.
            greet show hmac_verify codec cfg world g
              (verify_hello show hmac_verify cfg.credentials g.nonce_cache world.now p)))
  unfolding with_params
  decode-Locked g params (decoded p) closed e = greet-Locked g params p _ closed e refl
  decode-Locked g params (invalid m) closed e = record {
    registry = refl;
    calls = refl;
    opened = λ h. ground (arith, closed, h);
  }

  method-Locked :
      (g : Gateway) (name : String) (m : Option GatewayMethod) (params : Value)
      → g.authenticated ≡ false
      → is_hello m ≡ true
      → Locked g params (dispatch_method show hmac_verify codec cfg world g name m params)
  unfolding dispatch_method is_hello
  method-Locked g name (some Methods.hello) params closed h =
      decode-Locked g params (codec.hello params) closed refl
  method-Locked g name none params closed h = ground arith
  method-Locked g name (some Methods.spawn_agent) params closed h = ground arith
  method-Locked g name (some Methods.kill_agent) params closed h = ground arith
  method-Locked g name (some Methods.detach_agent) params closed h = ground arith
  method-Locked g name (some Methods.attach_agent) params closed h = ground arith
  method-Locked g name (some Methods.list_agents) params closed h = ground arith
  method-Locked g name (some Methods.agent_invoke) params closed h = ground arith
  method-Locked g name (some Methods.register_proxy) params closed h = ground arith
  method-Locked g name (some Methods.unregister_proxy) params closed h = ground arith
  method-Locked g name (some Methods.register_stream_proxy) params closed h = ground arith
  method-Locked g name (some Methods.unregister_stream_proxy) params closed h = ground arith

-- Until a session has said hello, no request of it touches the registry or calls an agent or the
-- backend, and it is open afterwards only if the request was a hello that verified.
pub handle_value-Locked :
    {Value : Type 0} (show : ℕ → String) (hmac_verify : String → String → List ℕ → Bool)
    (codec : Codec Value) (cfg : ServerConfig) (world : World Value) (g : Gateway) (name : String)
    (params : Option Value)
    → g.authenticated ≡ false
    → Locked show hmac_verify codec cfg world g
        (or_nil show hmac_verify codec cfg world params)
        (handle_value show hmac_verify codec cfg world g name params)
unfolding handle_value
handle_value-Locked show hmac codec cfg world g name params closed =
    elim (Bool-cases (is_hello (parse name))) [
      | inl yes' ↦
          simp (yes', closed)
            (method-Locked show hmac codec cfg world g name (parse name)
              (or_nil show hmac codec cfg world params) closed yes')
      | inr other ↦
          simp (other, closed)
            record { registry = refl; calls = refl; opened = λ h. ground (arith, closed, h) }
    ]

keep_new :
    (same : Bool) (entry : ProxyEntry) (key : Key) (o : Option ProxyEntry)
    → key_of entry ≡ key
    → (same ≡ true → o ≡ none)
    → keep
        (λ e. not (key_of e === key))
        (if same then some entry else keep (λ e. not (key_of e === key)) o)
      ≡ keep (λ e. not (key_of e === key)) o
keep_new true entry key o own fresh =
    rw (fresh refl) (ground (arith, own, eq_lem (key_of entry) key))
keep_new false entry key none own fresh = refl
keep_new false entry key (some e) own fresh = ground arith

unused :
    (inner : Proxies.Inner) (token : String)
    → lookup inner token ≡ none
    → Map.get inner.by_token token ≡ none
unfolding lookup
unused inner token h = h

-- A registration and the end of it
taken_back :
    (inner : Proxies.Inner) (token a n url : String) (headers : Map String String) (t : String)
    → IsConsistent inner
    → lookup inner token ≡ none
    → lookup (Proxies.unregister (Proxies.register inner token a n url headers).0 a n).0 t
      ≡ keep (λ e. not (key_of e === (a, n))) (lookup inner t)
unfolding Proxies.register
taken_back inner token a n url headers t c fresh =
    let registered = Proxies.register inner token a n url headers in
    (lookup-unregister registered.0 a n t
      (register-IsConsistent inner token a n url headers c (unused inner token fresh))).0
    ∙ ap (keep (λ e. not (key_of e === (a, n)))) (lookup-register inner token a n url headers t c)
    ∙ keep_new (token === t) registered.1 (a, n) (lookup inner t) refl
        (λ same. ap (lookup inner) (sym ((eq_lem token t).0 same)) ∙ fresh)

-- When the two maps are inverse, the token is new and the agent refuses the proxy, the registration
-- is taken back: the new token does not resolve, a former one of the same name has ended, and every
-- other resolves as before.
pub register_proxy-refused :
    {Value : Type 0} (show : ℕ → String) (hmac_verify : String → String → List ℕ → Bool)
    (codec : Codec Value) (cfg : ServerConfig) (world : World Value) (g : Gateway)
    (p : RegisterProxyParams) (entry : AgentEntry) (e : Conn.AgentConnError) (t : String)
    → IsConsistent g.registry.proxies
    → lookup g.registry.proxies world.token ≡ none
    → world.invoke ≡ Conn.err e
    → lookup (register_proxy show hmac_verify codec cfg world g p entry).0.registry.proxies t
      ≡ keep (λ old. not (key_of old === (p.agent_id, p.name))) (lookup g.registry.proxies t)
unfolding register_proxy proxy_done unregister_http
register_proxy-refused show hmac codec cfg world g p entry e t c fresh refused =
    rw refused (
      taken_back g.registry.proxies world.token p.agent_id p.name p.upstream_url p.headers t c
        fresh)
