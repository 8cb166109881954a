-- ===== src/Gateway/Examples.antt =====
-- The theorems on the gateway at concrete inputs.
pub mod Rpc
pub mod Sessions
mod Proxying
use nexal.Prelude.{
  ℕ, ◌+◌, ◌==◌, string_eq, pair_eq, ◌===◌, Bool, true, false, not, Option, none, some, List, [],
  ◌∷◌, ◌≡◌, ◌↔◌, ◌⊎◌, refl, String, if◌then◌else◌, arith, add64,
}
use nexal.Prelude.Map
use nexal.Gateway.Proxies
use nexal.Gateway.Proxies.{ProxyEntry, lookup, cleanup_for_agent}
use nexal.Gateway.Proxies.Consistency.{IsConsistent, keep, key_of}
use nexal.Gateway.Proxies.Refinement
use nexal.Gateway.Proxies.Refinement.{
  Call, unregistering, performed, perform, promised, lookup-promised,
}
use nexal.Gateway.Proxies.Reach.{Reachable, Step, start, step, Reachable-IsConsistent, registering}
use nexal.Gateway.TcpProxies
use nexal.Gateway.TcpProxies.{TcpProxyEntry}
use nexal.Gateway.TcpProxies.Listeners
use nexal.Gateway.TcpProxies.Listeners.{cleanup_for_agent-stops, run-accounts, cleaning, cancels}
use nexal.Gateway.Pool.{ContainerHandle, WarmPool, take, create_one, replenish}
use nexal.Gateway.Pool.Filling.{Fills, replenish-Fills}
use nexal.Gateway.Agents
use nexal.Gateway.Agents.{
  AgentRegistry, Answers, AgentEntry, SpawnDefaults, Outcome, ok, err, backend,
}
use nexal.Gateway.Agents.Killing.{kill-forgets}
use nexal.Gateway.Agents.Registering.{Spawned, Attached, Registers, new_agent-Registers}

abbrev pub one : Proxies.Inner
unfolding Proxies.register
one = (Proxies.register Proxies.new "t1" "a" "jina" "https://jina" []).0

pub one-Reachable : Reachable one
unfolding Proxies.register Proxies.lookup Map.get
one-Reachable = step start (registering "t1" "a" "jina" "https://jina" [] refl)

-- The newest call stands first.
abbrev calls : List Call
calls =
    Refinement.cleaning "b"
    ∷ Refinement.registering "t2" "a" "jina" "https://other" []
    ∷ unregistering "a" "none"
    ∷ Refinement.registering "t1" "a" "jina" "https://jina" []
    ∷ []

Reachable-IsConsistent_example : IsConsistent one
Reachable-IsConsistent_example = Reachable-IsConsistent one-Reachable

lookup-promised_example : lookup (performed calls) "t2" ≡ promised calls "t2"
unfolding performed perform Proxies.register Proxies.unregister Proxies.remove_key lookup Map.get
    Map.insert Map.remove
lookup-promised_example = lookup-promised calls "t2" (refl, (refl, tt))

abbrev listeners : TcpProxies.Inner
listeners = (("a", "ssh"), record { listen_addr = "127.0.0.1:49201"; cancel = 7 }) ∷ []

run-accounts_example :
    (Map.get (Listeners.run listeners (cleaning "b")).0 ("a", "ssh")
      ≡ some record { listen_addr = "127.0.0.1:49201"; cancel = 7 })
    ⊎ (cancels 7 (Listeners.run listeners (cleaning "b")).1 ≡ true)
unfolding Map.get
run-accounts_example =
    run-accounts listeners (cleaning "b") ("a", "ssh")
      record { listen_addr = "127.0.0.1:49201"; cancel = 7 } refl

abbrev warm : ContainerHandle
warm = record { name = "nexal-pool-0"; url = "ws://127.0.0.1:9000"; port_map = [] }

abbrev pool : WarmPool
pool = record {
  image = "debian";
  agent_bin = "/usr/bin/nexal-agent";
  memory = none;
  cpus = none;
  pids_limit = none;
  network = true;
  name_prefix = "nexal-";
  target_size = 2;
  counter = 0;
  available = [];
}

replenish-Fills_example : Fills pool (replenish pool (some warm ∷ none ∷ some warm ∷ []))
replenish-Fills_example = replenish-Fills pool (some warm ∷ none ∷ some warm ∷ []) (omega arith)

abbrev defaults : SpawnDefaults
defaults = record {
  image = "debian";
  agent_bin = "/usr/bin/nexal-agent";
  memory = none;
  cpus = none;
  pids_limit = none;
  network = true;
  container_name_prefix = "nexal-";
  workspace_volume = none;
}

abbrev pub answers : Answers
answers = record {
  exists = ok true;
  ensure = ok warm;
  url = ok "ws://127.0.0.1:9000";
  connect = ok 5;
  destroy = err (backend "no such container");
  now_ms = 1000;
  agent_id = "fresh";
}

abbrev pub agents : AgentRegistry
agents = record {
  spawn_defaults = defaults;
  inner =
      (
        "a",
        record {
          agent_id = "a";
          container_name = "nexal-a";
          created_at_unix_ms = 1;
          conn = 4;
          port_map = [];
        },
      )
      ∷ [];
  proxies = one;
  tcp_proxies = listeners;
  warm_pool = some pool;
}

kill-forgets_example :
    (Agents.get (Agents.kill answers agents "a").0 "a"
      ≡ (if ◌===◌ {A = String} "a" "a" then none else Agents.get agents "a"))
    × (lookup (Agents.kill answers agents "a").0.proxies "t1"
        ≡ keep (λ e. not (e.agent_id === "a")) (lookup one "t1"))
    × (TcpProxies.get_listen_addr (Agents.kill answers agents "a").0.tcp_proxies "a" "ssh" ≡ (
        if ◌===◌ {A = String} "a" "a"
        then none
        else TcpProxies.get_listen_addr listeners "a" "ssh"))
kill-forgets_example =
    kill-forgets answers agents "a" "a" "ssh" "t1" (Reachable-IsConsistent one-Reachable)

new_agent-Registers_example :
    Registers
      (Spawned answers agents.warm_pool)
      answers
      agents
      (Agents.spawn answers agents "w" none [] [] [])
    × Registers (Attached answers "nexal-a") answers agents (Agents.attach answers agents "nexal-a")
new_agent-Registers_example = new_agent-Registers answers agents "w" none [] [] [] "nexal-a"
