-- ===== src/Gateway/Proxies/Lookups.antt =====
-- crates/nexal-gateway/src/proxy/registry.rs: what a token resolves to after each operation.
use nexal.Prelude.{
  String, string_eq, pair_eq, ◌===◌, Option-cases, Bool, true, Option, none, some, List, [], ◌∷◌,
  ◌≡◌, if◌then◌else◌, arith, inl, inr, not, ◌&&◌, ◌↔◌, refl, ◌∙◌, ap,
}
use nexal.Gateway.Keys.{Key, keys_of, elem, elem-keys_of}
use nexal.Prelude.Map
use nexal.Prelude.Map.{Map, get-remove, get-insert, get-insert_self, get-remove_self}
use nexal.Gateway.Proxies.{
  Inner, ProxyEntry, remove_key, register, unregister, remove_keys, cleanup_for_agent, lookup,
}
use nexal.Gateway.Proxies.Consistency.{
  IsConsistent, key_of, keep, other_key, lookup-remove_key, remove_key-IsConsistent,
}

keep-keep :
    (p q : ProxyEntry → Bool) (o : Option ProxyEntry) → keep q (keep p o) ≡ keep (λ e. p e && q e) o
keep-keep p q none = refl
keep-keep p q (some e) = ground arith

keep-cong :
    (p q : ProxyEntry → Bool) (o : Option ProxyEntry)
    → ((e : ProxyEntry) → p e ≡ q e)
    → keep p o ≡ keep q o
keep-cong p q none same = refl
keep-cong p q (some e) same = rw (same e) refl

lookup-remove_keys :
    (inner : Inner) (keys : List Key) (t : String)
    → IsConsistent inner
    → Map.get (remove_keys inner keys).by_token t
      ≡ keep (λ e. not (elem (key_of e) keys)) (Map.get inner.by_token t)
unfolding remove_keys
lookup-remove_keys inner [] t c = elim (Option-cases (Map.get inner.by_token t)) [
  | inl e ↦ rw e refl
  | inr (e, he) ↦ rw he refl
]
lookup-remove_keys inner (key ∷ keys) t c =
    lookup-remove_keys (remove_key inner key) keys t (remove_key-IsConsistent inner key c)
    ∙ ap (keep (λ e. not (elem (key_of e) keys))) (lookup-remove_key inner key t c)
    ∙ keep-keep (other_key key) (λ e. not (elem (key_of e) keys)) (Map.get inner.by_token t)
    ∙ keep-cong (λ e. not (key_of e === key) && not (elem (key_of e) keys))
        (λ e. not (elem (key_of e) (key ∷ keys))) (Map.get inner.by_token t) (λ e. ground arith)

lookup-own_agent :
    (inner : Inner) (agent_id token : String)
    → IsConsistent inner
    → keep (λ e. not (elem (key_of e) (keys_of agent_id inner.index))) (lookup inner token)
      ≡ keep (λ e. not (e.agent_id === agent_id)) (lookup inner token)
unfolding lookup
lookup-own_agent inner a t c = elim (Option-cases (Map.get inner.by_token t)) [
  | inl e ↦ rw e refl
  | inr (e, he) ↦ rw he (ground (arith, elem-keys_of a inner.index (key_of e), c.indexed t e he))
]

-- Where the two maps are inverse, a token resolves after a registration to the new entry if it is
-- the new token, and otherwise to what it resolved to before, unless that was the registration that
-- is replaced.
pub lookup-register :
    (inner : Inner) (token agent_id name url : String) (headers : Map String String) (t : String)
    → IsConsistent inner
    → lookup (register inner token agent_id name url headers).0 t ≡ (
        if token === t
        then some (register inner token agent_id name url headers).1
        else keep (λ e. not (key_of e === (agent_id, name))) (lookup inner t))
unfolding register lookup
lookup-register inner token a n url headers t c =
    get-insert (remove_key inner (a, n)).by_token token t (register inner token a n url headers).1
    ∙ ap (λ o. if token === t then some (register inner token a n url headers).1 else o)
        (lookup-remove_key inner (a, n) t c)

-- Where the two maps are inverse, `unregister` takes the token of the named registration away and
-- no other, and answers whether there was one.
pub lookup-unregister :
    (inner : Inner) (agent_id name t : String)
    → IsConsistent inner
    → (lookup (unregister inner agent_id name).0 t
        ≡ keep (λ e. not (key_of e === (agent_id, name))) (lookup inner t))
      × (((unregister inner agent_id name).1 ≡ true) ↔ (
          (token : String) × (e : ProxyEntry) × (lookup inner token ≡ some e)
          × (key_of e ≡ (agent_id, name))))
unfolding unregister lookup Map.contains_key
lookup-unregister inner a n t c = (
  lookup-remove_key inner (a, n) t c,
  (
    (λ yes. elim (Option-cases (Map.get inner.index (a, n))) [
      | inl e ↦ ground (arith, e, yes)
      | inr (token, h) ↦ let held = c.held (a, n) token h in (token, held.0, held.1, held.2)
    ]),
    (λ found. ground (arith, c.indexed found.0 found.1 found.2, found.2, found.3)),
  ),
)

-- Where the two maps are inverse, the cleanup for an agent makes exactly the tokens of its
-- registrations stop resolving.
pub lookup-cleanup_for_agent :
    (inner : Inner) (agent_id t : String)
    → IsConsistent inner
    → lookup (cleanup_for_agent inner agent_id).0 t
      ≡ keep (λ e. not (e.agent_id === agent_id)) (lookup inner t)
unfolding cleanup_for_agent lookup
lookup-cleanup_for_agent inner a t c =
    lookup-remove_keys inner (keys_of a inner.index) t c ∙ lookup-own_agent inner a t c
