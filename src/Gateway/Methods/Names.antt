-- ===== src/Gateway/Methods/Names.antt =====
-- crates/utils/transport/src/gateway/methods.rs: the names and the methods are inverse.
use nexal.Prelude.{
  String, string_eq, ◌===◌, ◌≡◌, refl, Option, some, none, arith, eq_lem, Bool-cases, inl, inr, ap,
  sym, ◌∙◌, ◌↔◌, List, [], ◌∷◌, if◌then◌else◌,
}
use nexal.Gateway.Methods.{
  GatewayMethod, as_str, parse, hello, spawn_agent, kill_agent, detach_agent, attach_agent,
  list_agents, agent_invoke, register_proxy, unregister_proxy, register_stream_proxy,
  unregister_stream_proxy,
}

parse-as_str : (m : GatewayMethod) → parse (as_str m) ≡ some m
unfolding parse as_str
parse-as_str hello = refl
parse-as_str spawn_agent = refl
parse-as_str kill_agent = refl
parse-as_str detach_agent = refl
parse-as_str attach_agent = refl
parse-as_str list_agents = refl
parse-as_str agent_invoke = refl
parse-as_str register_proxy = refl
parse-as_str unregister_proxy = refl
parse-as_str register_stream_proxy = refl
parse-as_str unregister_stream_proxy = refl

find : String → List GatewayMethod → Option GatewayMethod
find s [] = none
find s (m ∷ ms) = let rest = find s ms in if s === as_str m then some m else rest

as_str-find :
    (s : String) (ms : List GatewayMethod) (m : GatewayMethod) → find s ms ≡ some m → as_str m ≡ s
unfolding find
as_str-find s [] m h = ground arith
as_str-find s (n ∷ ms) m h = elim (Bool-cases (s === as_str n)) [
  | inl same ↦ ground (arith, h, same, eq_lem s (as_str n))
  | inr other ↦ ground (arith, h, other, as_str-find s ms m)
]

parse-find :
    (s : String)
    → parse s
      ≡ find s (
          hello ∷ spawn_agent ∷ kill_agent ∷ detach_agent ∷ attach_agent ∷ list_agents
          ∷ agent_invoke ∷ register_proxy ∷ unregister_proxy ∷ register_stream_proxy
          ∷ unregister_stream_proxy ∷ [])
unfolding parse find as_str
parse-find s = refl

-- A text is parsed to a method exactly when it is the name of that method.
pub parse-as_str_iff : (s : String) (m : GatewayMethod) → (parse s ≡ some m) ↔ (as_str m ≡ s)
parse-as_str_iff s m =
    ((λ h. as_str-find s _ m (sym (parse-find s) ∙ h)), λ e. ap parse (sym e) ∙ parse-as_str m)
