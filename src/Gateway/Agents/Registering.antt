-- ===== src/Gateway/Agents/Registering.antt =====
-- crates/nexal-gateway/src/registry.rs: what `spawn` and `attach` register.
use nexal.Prelude.{
  ℕ, String, string_eq, str_append, Bool, true, false, Option, none, some, List, [], ◌∷◌, ◌++◌, ◌≡◌,
  refl, sym, ap, ◌∙◌, append_assoc, ◌⊎◌, inl, inr,
}
use nexal.Prelude.Map
use nexal.Prelude.Map.{Map}
use nexal.Gateway.Pool
use nexal.Gateway.Pool.{WarmPool, ContainerHandle, ContainerSpec}
use nexal.Gateway.Agents.{
  AgentRegistry, Answers, AgentEntry, Outcome, Effect, Result, ok, err, registered,
  dial_and_register, after, on_ok, spawn, spawn_by, spawn_warm, spawn_cold, attach, attach_existing,
  ensure, url, exists, connect, spec_of,
}

-- All but the agents and the pool of warm containers is as before.
abbrev pub OnlyAgents : AgentRegistry → AgentRegistry → Type 0
OnlyAgents registry registry' =
    registry' ≡ record registry { inner = registry'.inner; warm_pool = registry'.warm_pool }

-- The entry of a container
abbrev pub entry_of : Answers → ContainerHandle → ℕ → AgentEntry
entry_of answers handle conn = record {
  agent_id = answers.agent_id;
  container_name = handle.name;
  created_at_unix_ms = answers.now_ms;
  conn = conn;
  port_map = handle.port_map;
}

abbrev pub dial : Answers → ContainerHandle → Effect
dial answers handle = connect handle.url (str_append "nexal-gateway/" answers.agent_id)

-- What an operation that ends with a dial makes of the registry, with the calls that it makes: the
-- new entry is made from a handle that satisfies `From`, and its address is dialled last.
abbrev pub Changes :
    (ContainerHandle → Type 0)
    → Answers
    → AgentRegistry
    → AgentRegistry
    → Result AgentEntry
    → List Effect
    → Type 0
Changes From answers registry registry' (ok entry) effects =
    (registry'.inner ≡ Map.insert registry.inner answers.agent_id entry)
    × OnlyAgents registry registry'
    × (answers.connect ≡ ok entry.conn)
    × (handle : ContainerHandle) × From handle
    × (entry ≡ entry_of answers handle entry.conn)
    × (before : List Effect) × (effects ≡ before ++ dial answers handle ∷ [])
Changes From answers registry registry' (err e) effects =
    (registry'.inner ≡ registry.inner) × OnlyAgents registry registry'

pub record Registers (From : ContainerHandle → Type 0) (answers : Answers)
    (registry : AgentRegistry) (o : Outcome AgentEntry) : Type 0 where
  pub changes : Changes From answers registry o.0 o.1 o.2

-- The handle of a spawn: what the backend has started, or what the pool gave.
abbrev pub Spawned : Answers → Option WarmPool → ContainerHandle → Type 0
Spawned answers none handle = answers.ensure ≡ ok handle
Spawned answers (some pool) handle =
    (answers.ensure ≡ ok handle) ⊎ ((Pool.take pool).1 ≡ some handle)

-- The handle of an attach
abbrev pub Attached : Answers → String → ContainerHandle → Type 0
Attached answers name handle =
    (handle.name ≡ name) × (answers.url ≡ ok handle.url) × (handle.port_map ≡ [])

module _ (From : ContainerHandle → Type 0) (answers : Answers) where
  registered-Registers :
      (registry : AgentRegistry) (handle : ContainerHandle) (c : Result ℕ)
      → From handle
      → answers.connect ≡ c
      → Registers From answers registry (
        (registered answers registry handle c).0,
        (registered answers registry handle c).1,
        dial answers handle ∷ [],
      )
  unfolding registered
  registered-Registers registry handle (err e) from h = record { changes = (refl, refl) }
  registered-Registers registry handle (ok conn) from h = record {
    changes = (refl, refl, h, handle, from, refl, [], refl);
  }

  dial-Registers :
      (registry : AgentRegistry) (handle : ContainerHandle)
      → From handle
      → Registers From answers registry (dial_and_register answers registry handle)
  unfolding dial_and_register
  dial-Registers registry handle from =
      registered-Registers registry handle answers.connect from refl

  after-Registers :
      (registry : AgentRegistry) (more : List Effect) (o : Outcome AgentEntry)
      → Registers From answers registry o
      → Registers From answers registry (after answers more o)
  unfolding after
  after-Registers registry more (r, ok entry, effects) h =
      let (inner, only, conn, handle, from, made, before, e) = h.changes in
      record {
        changes = (
          inner,
          only,
          conn,
          handle,
          from,
          made,
          more ++ before,
          ap (λ l. more ++ l) e ∙ sym (append_assoc more before (dial answers handle ∷ [])),
        );
      }
  after-Registers registry more (r, err e, effects) h = record { changes = h.changes }

  on_ok-Registers :
      {A : Type 0} (registry : AgentRegistry) (result answer : Result A)
      (next : A → Outcome AgentEntry)
      → answer ≡ result
      → ((a : A) → answer ≡ ok a → Registers From answers registry (next a))
      → Registers From answers registry (on_ok answers registry result next)
  unfolding on_ok
  on_ok-Registers registry (err e) answer next h k = record { changes = (refl, refl) }
  on_ok-Registers registry (ok a) answer next h k = k a h

  cold-Registers :
      (registry : AgentRegistry) (spec : ContainerSpec)
      → ((handle : ContainerHandle) → answers.ensure ≡ ok handle → From handle)
      → Registers From answers registry (spawn_cold answers registry spec)
  unfolding spawn_cold
  cold-Registers registry spec from = after-Registers registry (ensure spec ∷ []) _ (
      on_ok-Registers registry answers.ensure _ _ refl
        (λ handle e. dial-Registers registry handle (from handle e)))

  pooled :
      (registry : AgentRegistry) (pool : Option WarmPool) (o : Outcome AgentEntry)
      → Registers From answers (record registry { warm_pool = pool }) o
      → Registers From answers registry o
  pooled registry pool (r, ok entry, effects) h = record { changes = h.changes }
  pooled registry pool (r, err e, effects) h = record { changes = h.changes }

  attach_existing-Registers :
      (registry : AgentRegistry) (name : String) (there : Bool)
      → ((handle : ContainerHandle) → Attached answers name handle → From handle)
      → Registers From answers registry (attach_existing answers registry name there)
  unfolding attach_existing
  attach_existing-Registers registry name false from = record { changes = (refl, refl) }
  attach_existing-Registers registry name true from =
      after-Registers registry
        (ensure (spec_of registry.spawn_defaults name registry.spawn_defaults.image [] [] []) ∷ [])
        _
        (on_ok-Registers registry answers.ensure _ _ refl (λ h e.
          after-Registers registry (url name ∷ []) _ (
            on_ok-Registers registry answers.url _ _ refl (λ address e'.
              dial-Registers registry record { name = name; url = address; port_map = [] }
                (from _ (refl, e', refl))))))

module _ (answers : Answers) where
  warm-Registers :
      (registry : AgentRegistry) (spec : ContainerSpec) (pool : WarmPool)
      (taken : WarmPool × Option ContainerHandle)
      → (Pool.take pool).1 ≡ taken.1
      → Registers
          (Spawned answers (some pool))
          answers
          registry
          (spawn_warm answers registry spec taken)
  unfolding spawn_warm
  warm-Registers registry spec pool (rest, none) h =
      pooled _ answers registry (some rest) _ (cold-Registers _ answers _ spec (λ handle e. inl e))
  warm-Registers registry spec pool (rest, some handle) h =
      pooled _ answers registry (some rest) _ (dial-Registers _ answers _ handle (inr h))

  cold_of :
      (pool : Option WarmPool) (handle : ContainerHandle)
      → answers.ensure ≡ ok handle
      → Spawned answers pool handle
  cold_of none handle e = e
  cold_of (some pool) handle e = inl e

  spawn_by-Registers :
      (warm : Bool) (pool : Option WarmPool) (registry : AgentRegistry) (spec : ContainerSpec)
      → Registers (Spawned answers pool) answers registry (spawn_by answers warm pool registry spec)
  unfolding spawn_by
  spawn_by-Registers true (some pool) registry spec =
      warm-Registers registry spec pool (Pool.take pool) refl
  spawn_by-Registers true none registry spec =
      cold-Registers _ answers registry spec (λ handle e. e)
  spawn_by-Registers false pool registry spec =
      cold-Registers _ answers registry spec (cold_of pool)

-- A `spawn` or an `attach` that succeeds adds one entry, under the new id: it is made from the
-- container that the backend started, the pool gave or the caller named, whose address is dialled
-- last, with the connection that the dial gave. One that fails leaves the agents as they were.
-- Nothing but the agents and the pool of warm containers changes.
pub new_agent-Registers :
    (answers : Answers) (registry : AgentRegistry) (name : String) (image : Option String)
    (env labels : Map String String) (ports : List ℕ) (container_name : String)
    → Registers
        (Spawned answers registry.warm_pool)
        answers
        registry
        (spawn answers registry name image env labels ports)
      × Registers
          (Attached answers container_name)
          answers
          registry
          (attach answers registry container_name)
unfolding spawn attach
new_agent-Registers answers registry name image env labels ports container_name = (
  spawn_by-Registers answers _ registry.warm_pool registry _,
  after-Registers _ answers registry (exists container_name ∷ []) _ (
      on_ok-Registers _ answers registry answers.exists _ _ refl
        (λ there e. attach_existing-Registers _ answers registry container_name there (λ h a. a))),
)
