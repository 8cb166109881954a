-- ===== src/Gateway/Pool.antt =====
-- crates/nexal-gateway/src/pool.rs: `WarmPool`. What the backend answers is an argument.
pub mod Filling
use nexal.Prelude.{
  ℕ, ◌+◌, ◌%◌, ◌≤◌, ◌<◌, String, str_append, Bool, true, false, Option, none, some, List, [], ◌∷◌,
  ◌++◌, ◌≡◌, if◌then◌else◌, length, leb, arith, add64, map,
}
use nexal.Prelude.Map.{Map}

pub record ContainerHandle : Type 0 where
  pub name : String
  pub url : String
  pub port_map : Map ℕ String

pub record ContainerSpec : Type 0 where
  pub name : String
  pub image : String
  pub env : Map String String
  pub labels : Map String String
  pub agent_bin : String
  pub memory : Option String
  pub cpus : Option String
  pub pids_limit : Option ℕ
  pub network : Bool
  pub workspace_volume : Option String
  pub extra_ports : List ℕ
  pub fuse : Bool

pub record WarmPool : Type 0 where
  pub image : String
  pub agent_bin : String
  pub memory : Option String
  pub cpus : Option String
  pub pids_limit : Option ℕ
  pub network : Bool
  pub name_prefix : String
  pub target_size : ℕ
  pub counter : ℕ
  pub available : List ContainerHandle

-- `Vec::pop`: the last element is at the end of the list.
unfoldable pub pop : List ContainerHandle → List ContainerHandle × Option ContainerHandle
pop [] = ([], none)
pop (h ∷ []) = ([], some h)
pop (h ∷ k ∷ hs) = let rest = pop (k ∷ hs) in (h ∷ rest.0, rest.1)

unfoldable pub take : WarmPool → WarmPool × Option ContainerHandle
take pool = let popped = pop pool.available in (record pool { available = popped.0 }, popped.1)

unfoldable pub available_count : WarmPool → ℕ
available_count pool = length pool.available

-- What the backend is asked for, by the sequence number, which `show` prints
unfoldable pub create_spec : (ℕ → String) → WarmPool → ContainerSpec
create_spec show pool = record {
  name = str_append (str_append pool.name_prefix "pool-") (show pool.counter);
  image = pool.image;
  env = [];
  labels = ("nexal.pool", "warm") ∷ [];
  agent_bin = pool.agent_bin;
  memory = pool.memory;
  cpus = pool.cpus;
  pids_limit = pool.pids_limit;
  network = pool.network;
  workspace_volume = none;
  extra_ports = [];
  fuse = true;
}

unfoldable pub create_one : WarmPool → Option ContainerHandle → WarmPool × Bool
create_one pool none = (record pool { counter = add64 pool.counter 1 }, false)
create_one pool (some handle) = (
  record pool { counter = add64 pool.counter 1; available = pool.available ++ (handle ∷ []) },
  true,
)

-- The loop, with what the backend answers to each `ensure`. `none` says that the answers are used
-- up, and the loop goes on.
unfoldable pub replenish : WarmPool → List (Option ContainerHandle) → Option WarmPool
replenish pool [] = if leb pool.target_size (available_count pool) then some pool else none
replenish pool (answer ∷ answers) =
    let rest = replenish (create_one pool answer).0 answers in
    if leb pool.target_size (available_count pool) then some pool else rest

-- The names are destroyed in this order; a failure is only logged.
unfoldable pub drain : WarmPool → WarmPool × List String
drain pool = (record pool { available = [] }, map (λ h. h.name) pool.available)
