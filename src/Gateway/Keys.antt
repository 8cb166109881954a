-- ===== src/Gateway/Keys.antt =====
-- The keys of both proxy registries, crates/nexal-gateway/src/proxy/registry.rs and tcp.rs: an
-- agent and a name.
use nexal.Prelude.{
  String, string_eq, pair_eq, ◌===◌, eq_lem, Bool-cases, inl, inr, Bool, false, ◌&&◌, ◌||◌, is_some,
  List, [], ◌∷◌, ◌≡◌, if◌then◌else◌, arith,
}
use nexal.Prelude.Map
use nexal.Prelude.Map.{Map}

abbrev pub Key : Type 0
Key = String × String

-- `inner.index.keys().filter(|(a, _)| a == agent_id)`
unfoldable pub keys_of : {V : Type 0} → String → Map Key V → List Key
keys_of agent_id [] = []
keys_of agent_id ((key, v) ∷ index) =
    let rest = keys_of agent_id index in if key.0 === agent_id then key ∷ rest else rest

abbrev pub elem : Key → List Key → Bool
elem k [] = false
elem k (key ∷ keys) = (k === key) || elem k keys

pub elem-keys_of :
    {V : Type 0} (agent_id : String) (index : Map Key V) (k : Key)
    → elem k (keys_of agent_id index) ≡ (k.0 === agent_id && is_some (Map.get index k))
unfolding keys_of Map.get
elem-keys_of a [] k = ground arith
elem-keys_of a ((key, v) ∷ index) k = elim (Bool-cases (key === k)) [
  | inl same ↦ ground (arith, elem-keys_of a index k, same, eq_lem key k, eq_lem k key)
  | inr other ↦ ground (arith, elem-keys_of a index k, other, eq_lem key k, eq_lem k key)
]
