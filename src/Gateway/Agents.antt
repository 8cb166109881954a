-- ===== src/Gateway/Agents.antt =====
-- crates/nexal-gateway/src/registry.rs: `AgentRegistry`. A call gets what the backend and the
-- connection answer in it, and gives the calls that it makes on them, in their order. A connection
-- is a number; the new agent id, which the source makes at random, is an argument.
pub mod Killing
pub mod Registering
use nexal.Prelude.{
  ℕ, ◌+◌, String, string_eq, str_append, Bool, true, false, Option, none, some, List, [], ◌∷◌, ◌++◌,
  ◌≡◌, if◌then◌else◌, not, ◌&&◌, ◌||◌, map, leb, ◌==◌, is_some,
}
use Prim.Native.String.{[], ◌∷◌}
use Prim.Native.Char.{Char, code}
use nexal.Prelude.Map
use nexal.Prelude.Map.{Map}
use nexal.Gateway.Pool
use nexal.Gateway.Pool.{ContainerHandle, ContainerSpec, WarmPool}
use nexal.Gateway.Proxies
use nexal.Gateway.TcpProxies

pub record AgentEntry : Type 0 where
  pub agent_id : String
  pub container_name : String
  pub created_at_unix_ms : ℕ
  pub conn : ℕ
  pub port_map : Map ℕ String

pub record SpawnDefaults : Type 0 where
  pub image : String
  pub agent_bin : String
  pub memory : Option String
  pub cpus : Option String
  pub pids_limit : Option ℕ
  pub network : Bool
  pub container_name_prefix : String
  pub workspace_volume : Option String

pub record AgentRegistry : Type 0 where
  pub spawn_defaults : SpawnDefaults
  pub inner : Map String AgentEntry
  pub proxies : Proxies.Inner
  pub tcp_proxies : TcpProxies.Inner
  pub warm_pool : Option WarmPool

pub data RegistryError : Type 0 where
  backend : String → RegistryError
  agent_conn : String → RegistryError
  unknown_agent : String → RegistryError
  unknown_container : String → RegistryError

pub data Result (A : Type 0) : Type 0 where
  ok : A → Result A
  err : RegistryError → Result A

-- What the gateway asks of the outer world
pub data Effect : Type 0 where
  exists : String → Effect
  ensure : ContainerSpec → Effect
  url : String → Effect
  connect : String → String → Effect
  close : ℕ → Effect
  cancel : ℕ → Effect
  destroy : String → Effect

-- What the backend and the dial answer in one call, and the clock
pub record Answers : Type 0 where
  pub exists : Result Bool
  pub ensure : Result ContainerHandle
  pub url : Result String
  pub connect : Result ℕ
  pub destroy : Result (Unit {0})
  pub now_ms : ℕ
  pub agent_id : String

abbrev pub Outcome : Type 0 → Type 0
Outcome A = AgentRegistry × Result A × List Effect

between : ℕ → ℕ → ℕ → Bool
between low high c = leb low c && leb c high

-- `c.is_ascii_alphanumeric() || c == '_' || c == '.' || c == '-'`
unfoldable pub allowed : Char → Bool
unfolding between
allowed c =
    between 48 57 (code c)
    || (between 65 90 (code c)
        || (between 97 122 (code c) || (code c == 95 || (code c == 46 || code c == 45))))

unfoldable pub sanitize : String → String
unfolding allowed
sanitize [] = []
sanitize (c ∷ s) = let rest = sanitize s in if allowed c then c ∷ rest else str_append "_" rest

unfoldable pub derive_container_name : String → String → String
derive_container_name prefix name = str_append prefix (sanitize name)

-- The spec of a container of an agent
unfoldable pub spec_of :
    SpawnDefaults → String → String → Map String String → Map String String → List ℕ → ContainerSpec
spec_of defaults name image env labels extra_ports = record {
  name = name;
  image = image;
  env = env;
  labels = labels;
  agent_bin = defaults.agent_bin;
  memory = defaults.memory;
  cpus = defaults.cpus;
  pids_limit = defaults.pids_limit;
  network = defaults.network;
  workspace_volume = defaults.workspace_volume;
  extra_ports = extra_ports;
  fuse = true;
}

abbrev pub unwrap_or : {A : Type 0} → Option A → A → A
unwrap_or none d = d
unwrap_or (some a) d = a

abbrev pub is_empty : {A : Type 0} → List A → Bool
is_empty [] = true
is_empty (a ∷ l) = false

module _ (answers : Answers) where
  unfoldable pub registered :
      AgentRegistry → ContainerHandle → Result ℕ → AgentRegistry × Result AgentEntry
  registered registry handle (err e) = (registry, err e)
  registered registry handle (ok conn) =
      let entry : AgentEntry = record {
        agent_id = answers.agent_id;
        container_name = handle.name;
        created_at_unix_ms = answers.now_ms;
        conn = conn;
        port_map = handle.port_map;
      } in
      (record registry { inner = Map.insert registry.inner answers.agent_id entry }, ok entry)

  unfoldable pub dial_and_register : AgentRegistry → ContainerHandle → Outcome AgentEntry
  unfolding registered
  dial_and_register registry handle =
      let done = registered registry handle answers.connect in
      (done.0, done.1, connect handle.url (str_append "nexal-gateway/" answers.agent_id) ∷ [])

  unfoldable pub after : List Effect → Outcome AgentEntry → Outcome AgentEntry
  after before (registry, result, effects) = (registry, result, before ++ effects)

  -- The next step gets the value of an answer; an error ends the call.
  unfoldable pub on_ok :
      {A : Type 0} → AgentRegistry → Result A → (A → Outcome AgentEntry) → Outcome AgentEntry
  on_ok registry (err e) next = (registry, err e, [])
  on_ok registry (ok a) next = next a

  unfoldable pub spawn_cold : AgentRegistry → ContainerSpec → Outcome AgentEntry
  unfolding after on_ok dial_and_register
  spawn_cold registry spec =
      after (ensure spec ∷ [])
        (on_ok registry answers.ensure (λ handle. dial_and_register registry handle))

  -- What `take` gives, or the cold start
  unfoldable pub spawn_warm :
      AgentRegistry → ContainerSpec → WarmPool × Option ContainerHandle → Outcome AgentEntry
  unfolding spawn_cold dial_and_register
  spawn_warm registry spec (pool, none) =
      spawn_cold (record registry { warm_pool = some pool }) spec
  spawn_warm registry spec (pool, some handle) =
      dial_and_register (record registry { warm_pool = some pool }) handle

  unfoldable pub spawn_by :
      Bool → Option WarmPool → AgentRegistry → ContainerSpec → Outcome AgentEntry
  unfolding spawn_cold spawn_warm
  spawn_by true (some pool) registry spec = spawn_warm registry spec (Pool.take pool)
  spawn_by true none registry spec = spawn_cold registry spec
  spawn_by false pool registry spec = spawn_cold registry spec

  unfoldable pub spawn :
      AgentRegistry
      → String
      → Option String
      → Map String String
      → Map String String
      → List ℕ
      → Outcome AgentEntry
  unfolding spawn_by spec_of
  spawn registry name image env labels extra_ports =
      spawn_by (not (is_some image) && is_empty extra_ports) registry.warm_pool registry (
        spec_of registry.spawn_defaults
          (derive_container_name registry.spawn_defaults.container_name_prefix name)
          (unwrap_or image registry.spawn_defaults.image) env labels extra_ports)

  unfoldable pub attach_existing : AgentRegistry → String → Bool → Outcome AgentEntry
  unfolding after on_ok dial_and_register spec_of
  attach_existing registry container_name false =
      (registry, err (unknown_container container_name), [])
  attach_existing registry container_name true =
      let spec =
        spec_of registry.spawn_defaults container_name registry.spawn_defaults.image [] [] [] in
      after (ensure spec ∷ []) (
        on_ok registry answers.ensure (λ _. after (url container_name ∷ []) (
          on_ok registry answers.url (λ address.
            dial_and_register registry
              record { name = container_name; url = address; port_map = [] }))))

  unfoldable pub attach : AgentRegistry → String → Outcome AgentEntry
  unfolding after on_ok attach_existing
  attach registry container_name =
      after (exists container_name ∷ [])
        (on_ok registry answers.exists (attach_existing registry container_name))

  -- The removal from the table, and the cleanup of both proxy registries
  unfoldable pub forget : AgentRegistry → String → AgentRegistry
  forget registry agent_id = record registry {
    inner = Map.remove registry.inner agent_id;
    proxies = (Proxies.cleanup_for_agent registry.proxies agent_id).0;
    tcp_proxies = (TcpProxies.cleanup_for_agent registry.tcp_proxies agent_id).0;
  }

  unfoldable pub kill_entry : AgentRegistry → String → Option AgentEntry → Outcome (Unit {0})
  kill_entry registry agent_id none = (registry, err (unknown_agent agent_id), [])
  kill_entry registry agent_id (some entry) =
      (registry, answers.destroy, close entry.conn ∷ destroy entry.container_name ∷ [])

  unfoldable pub kill : AgentRegistry → String → Outcome (Unit {0})
  unfolding kill_entry
  kill registry agent_id =
      let tcp = TcpProxies.cleanup_for_agent registry.tcp_proxies agent_id in
      let done = kill_entry (forget registry agent_id) agent_id (Map.get registry.inner agent_id) in
      (done.0, done.1, map cancel tcp.2 ++ done.2)

detach_entry : AgentRegistry → String → Option AgentEntry → Outcome (Unit {0})
detach_entry registry agent_id none = (registry, err (unknown_agent agent_id), [])
detach_entry registry agent_id (some entry) =
    (record registry { inner = Map.remove registry.inner agent_id }, ok tt, close entry.conn ∷ [])

unfoldable pub detach : AgentRegistry → String → Outcome (Unit {0})
unfolding detach_entry
detach registry agent_id = detach_entry registry agent_id (Map.get registry.inner agent_id)

unfoldable pub get : AgentRegistry → String → Option AgentEntry
get registry agent_id = Map.get registry.inner agent_id

unfoldable pub list : AgentRegistry → List AgentEntry
list registry = map (λ entry. entry.1) registry.inner

drain_pool : Option WarmPool → Option WarmPool × List Effect
drain_pool none = (none, [])
drain_pool (some pool) = let drained = Pool.drain pool in (some drained.0, map destroy drained.1)

unfoldable pub detach_all : AgentRegistry → AgentRegistry × List Effect
unfolding drain_pool
detach_all registry =
    let drained = drain_pool registry.warm_pool in
    (
      record registry { inner = []; warm_pool = drained.0 },
      map (λ e. close e.1.conn) registry.inner ++ drained.1,
    )
