-- ===== src/Gateway/TcpProxies/Listeners.antt =====
-- crates/nexal-gateway/src/proxy/tcp.rs: which listeners run after an operation.
use nexal.Prelude.{
  ℕ, String, string_eq, pair_eq, ◌===◌, ◌==◌, Bool, true, false, ◌||◌, none, some, List, [], ◌∷◌,
  ◌++◌, ◌≡◌, if◌then◌else◌, arith, inl, inr, ◌⊎◌, Option-cases, Bool-cases, eq_lem, refl, ap,
}
use nexal.Gateway.Keys.{Key, keys_of, elem, elem-keys_of}
use nexal.Prelude.Map
use nexal.Prelude.Map.{Map, get-insert, get-remove}
use nexal.Gateway.TcpProxies.{
  Inner, TcpProxyEntry, cancel_of, remove_key, remove_keys, register, unregister, cleanup_for_agent,
  get_listen_addr,
}

abbrev pub cancels : ℕ → List ℕ → Bool
cancels c [] = false
cancels c (d ∷ ds) = (c == d) || cancels c ds

cancels-append : (c : ℕ) (l m : List ℕ) → cancels c (l ++ m) ≡ (cancels c l || cancels c m)
cancels-append c [] m = refl
cancels-append c (d ∷ l) m = ground (arith, cancels-append c l m)

get-remove_keys :
    (inner : Inner) (keys : List Key) (k : Key)
    → Map.get (remove_keys inner keys).0 k ≡ (if elem k keys then none else Map.get inner k)
unfolding remove_keys remove_key
get-remove_keys inner [] k = refl
get-remove_keys inner (key ∷ keys) k = ground (
  arith,
  get-remove_keys (Map.remove inner key) keys k,
  get-remove inner key k,
  eq_lem key k,
  eq_lem k key,
)

cancels-remove_keys :
    (inner : Inner) (keys : List Key) (k : Key) (e : TcpProxyEntry)
    → Map.get inner k ≡ some e
    → elem k keys ≡ true
    → cancels e.cancel (remove_keys inner keys).1 ≡ true
unfolding remove_keys remove_key cancel_of
cancels-remove_keys inner [] k e h found = ground arith
cancels-remove_keys inner (key ∷ keys) k e h found = elim (Bool-cases (key === k)) [
  | inl same ↦ ground (
    arith,
    ap (Map.get inner) ((eq_lem key k).0 same),
    h,
    cancels-append e.cancel (cancel_of (Map.get inner key))
        (remove_keys (Map.remove inner key) keys).1,
  )
  | inr other ↦ ground (
    arith,
    cancels-remove_keys (Map.remove inner key) keys k e,
    get-remove inner key k,
    h,
    found,
    eq_lem key k,
    eq_lem k key,
    cancels-append e.cancel (cancel_of (Map.get inner key))
        (remove_keys (Map.remove inner key) keys).1,
  )
]

-- The cleanup for an agent leaves its listeners without an address and cancels each of them, and
-- those of other agents keep their addresses.
pub cleanup_for_agent-stops :
    (inner : Inner) (a b name : String)
    → (get_listen_addr (cleanup_for_agent inner a).0 b name
        ≡ (if b === a then none else get_listen_addr inner b name))
      × ((e : TcpProxyEntry)
          → Map.get inner (b, name) ≡ some e
          → (b === a) ≡ true
          → cancels e.cancel (cleanup_for_agent inner a).2 ≡ true)
unfolding cleanup_for_agent get_listen_addr
cleanup_for_agent-stops inner a b n = (
  elim (Option-cases (Map.get inner (b, n))) [
    | inl e ↦ ground (arith, get-remove_keys inner (keys_of a inner) (b, n), e)
    | inr (entry, e) ↦
        ground
          (arith, get-remove_keys inner (keys_of a inner) (b, n), e, elem-keys_of a inner (b, n))
  ],
  λ e h own.
      cancels-remove_keys inner (keys_of a inner) (b, n) e h
        (ground (arith, elem-keys_of a inner (b, n), h, own)),
)

pub data Operation : Type 0 where
  registering : String → String → String → ℕ → Operation
  unregistering : String → String → Operation
  cleaning : String → Operation

unfoldable pub run : Inner → Operation → Inner × List ℕ
run inner (registering a n addr cancel) =
    let done = register inner a n addr cancel in (done.0, done.2)
run inner (unregistering a n) = let done = unregister inner a n in (done.0, done.2)
run inner (cleaning a) = let done = cleanup_for_agent inner a in (done.0, done.2)

-- No operation loses a listener: each entry stands after it, or its token has been cancelled.
pub run-accounts :
    (inner : Inner) (op : Operation) (k : Key) (e : TcpProxyEntry)
    → Map.get inner k ≡ some e
    → (Map.get (run inner op).0 k ≡ some e) ⊎ (cancels e.cancel (run inner op).1 ≡ true)
unfolding run register unregister cleanup_for_agent remove_key cancel_of
run-accounts inner (registering a n addr c) k e h = elim (Bool-cases ((a, n) === k)) [
  | inl same ↦ inr (ground (arith, ap (Map.get inner) ((eq_lem (a, n) k).0 same), h))
  | inr other ↦ inl (
      ground (
        arith,
        get-insert (Map.remove inner (a, n)) (a, n) k record { listen_addr = addr; cancel = c },
        get-remove inner (a, n) k,
        h,
        other,
      ))
]
run-accounts inner (unregistering a n) k e h = elim (Bool-cases ((a, n) === k)) [
  | inl same ↦ inr (ground (arith, ap (Map.get inner) ((eq_lem (a, n) k).0 same), h))
  | inr other ↦ inl (ground (arith, get-remove inner (a, n) k, h, other))
]
run-accounts inner (cleaning a) k e h = elim (Bool-cases (elem k (keys_of a inner))) [
  | inl mine ↦ inr (cancels-remove_keys inner (keys_of a inner) k e h mine)
  | inr other ↦ inl (ground (arith, get-remove_keys inner (keys_of a inner) k, h, other))
]
