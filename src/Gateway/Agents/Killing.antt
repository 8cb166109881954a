-- ===== src/Gateway/Agents/Killing.antt =====
-- crates/nexal-gateway/src/registry.rs: what `kill` leaves behind in the three registries.
use nexal.Prelude.{
  String, string_eq, pair_eq, ◌===◌, Option, none, some, ◌≡◌, if◌then◌else◌, not, refl,
}
use nexal.Prelude.Map
use nexal.Prelude.Map.{get-remove}
use nexal.Gateway.Proxies.{lookup}
use nexal.Gateway.Proxies.Consistency.{IsConsistent, keep}
use nexal.Gateway.Proxies.Lookups.{lookup-cleanup_for_agent}
use nexal.Gateway.TcpProxies.{get_listen_addr}
use nexal.Gateway.TcpProxies.Listeners.{cleanup_for_agent-stops}
use nexal.Gateway.Agents.{AgentRegistry, Answers, AgentEntry, kill, kill_entry, get, forget}

kill_entry-registry :
    (answers : Answers) (registry : AgentRegistry) (agent_id : String) (entry : Option AgentEntry)
    → (kill_entry answers registry agent_id entry).0 ≡ registry
unfolding kill_entry
kill_entry-registry answers registry agent_id none = refl
kill_entry-registry answers registry agent_id (some entry) = refl

-- Where the two maps of the proxies are inverse, `kill` forgets the agent whatever the backend
-- answers, stops exactly the tokens of its proxies from resolving, and takes exactly the addresses
-- of its stream proxies away.
pub kill-forgets :
    (answers : Answers) (registry : AgentRegistry) (a b name token : String)
    → IsConsistent registry.proxies
    → (get (kill answers registry a).0 b ≡ (if a === b then none else get registry b))
      × (lookup (kill answers registry a).0.proxies token
          ≡ keep (λ e. not (e.agent_id === a)) (lookup registry.proxies token))
      × (get_listen_addr (kill answers registry a).0.tcp_proxies b name
          ≡ (if b === a then none else get_listen_addr registry.tcp_proxies b name))
unfolding kill get forget
kill-forgets answers registry a b name token consistent =
    rw (kill_entry-registry answers (forget answers registry a) a (Map.get registry.inner a)) (
      get-remove registry.inner a b,
      lookup-cleanup_for_agent registry.proxies a token consistent,
      (cleanup_for_agent-stops registry.tcp_proxies a b name).0,
    )
