-- ===== src/Gateway/Proxies/Refinement.antt =====
-- crates/nexal-gateway/src/proxy/registry.rs: what the registry promises, as one table from tokens to
-- registrations.
use nexal.Prelude.{
  String, string_eq, pair_eq, ◌===◌, not, Option, none, some, List, [], ◌∷◌, ◌≡◌, refl, ap, ◌∙◌,
  if◌then◌else◌, arith,
}
use nexal.Gateway.Keys.{keys_of}
use nexal.Prelude.Map
use nexal.Prelude.Map.{Map}
use nexal.Gateway.Proxies
use nexal.Gateway.Proxies.{Inner, ProxyEntry, lookup}
use nexal.Gateway.Proxies.Consistency.{
  IsConsistent, keep, key_of, register-IsConsistent, remove_key-IsConsistent,
  remove_keys-IsConsistent,
}
use nexal.Gateway.Proxies.Lookups.{lookup-register, lookup-unregister, lookup-cleanup_for_agent}

pub data Call : Type 0 where
  registering : String → String → String → String → Map String String → Call
  unregistering : String → String → Call
  cleaning : String → Call

unfoldable pub perform : Inner → Call → Inner
perform inner (registering token a n url headers) = (Proxies.register inner token a n url headers).0
perform inner (unregistering a n) = (Proxies.unregister inner a n).0
perform inner (cleaning a) = (Proxies.cleanup_for_agent inner a).0

-- The registry after the calls, the newest first
unfoldable pub performed : List Call → Inner
unfolding perform
performed [] = Proxies.new
performed (c ∷ cs) = perform (performed cs) c

abbrev pub Table : Type 0
Table = String → Option ProxyEntry

-- What each call promises: a registration takes the place of the one of its agent and name.
abbrev pub promise : Table → Call → Table
promise table (registering token a n url headers) t =
    if token === t
    then some
        (record { agent_id = a; name = n; upstream_url = url; headers = headers; token = token })
    else keep (λ e. not (key_of e === (a, n))) (table t)
promise table (unregistering a n) t = keep (λ e. not (key_of e === (a, n))) (table t)
promise table (cleaning a) t = keep (λ e. not (e.agent_id === a)) (table t)

abbrev pub promised : List Call → Table
promised [] t = none
promised (c ∷ cs) t = promise (promised cs) c t

-- Each registration takes a token that does not resolve.
abbrev pub AreNew : List Call → Type 0
AreNew [] = Unit {0}
AreNew (registering token a n url headers ∷ cs) = (lookup (performed cs) token ≡ none) × AreNew cs
AreNew (unregistering a n ∷ cs) = AreNew cs
AreNew (cleaning a ∷ cs) = AreNew cs

performed-IsConsistent : (cs : List Call) → AreNew cs → IsConsistent (performed cs)
unfolding performed lookup Proxies.unregister Proxies.cleanup_for_agent Map.get
performed-IsConsistent [] new = record {
  indexed = λ token e h. ground arith;
  own_token = λ token e h. ground arith;
  held = λ key token h. ground arith;
}
performed-IsConsistent (registering token a n url headers ∷ cs) (fresh, new) =
    register-IsConsistent (performed cs) token a n url headers (performed-IsConsistent cs new) fresh
performed-IsConsistent (unregistering a n ∷ cs) new =
    remove_key-IsConsistent (performed cs) (a, n) (performed-IsConsistent cs new)
performed-IsConsistent (cleaning a ∷ cs) new =
    remove_keys-IsConsistent (performed cs) (keys_of a (performed cs).index)
      (performed-IsConsistent cs new)

-- However the calls come, a token resolves exactly as in the table that the calls promise, as long
-- as each registration takes a token that does not resolve.
pub lookup-promised :
    (calls : List Call) (token : String)
    → AreNew calls
    → lookup (performed calls) token ≡ promised calls token
unfolding performed perform lookup Map.get Proxies.register
lookup-promised [] t new = refl
lookup-promised (registering token a n url headers ∷ cs) t (fresh, new) =
    lookup-register (performed cs) token a n url headers t (performed-IsConsistent cs new)
    ∙ ap
        (λ o.
          if token === t
          then some (record {
            agent_id = a;
            name = n;
            upstream_url = url;
            headers = headers;
            token = token;
          })
          else keep (λ e. not (key_of e === (a, n))) o)
        (lookup-promised cs t new)
lookup-promised (unregistering a n ∷ cs) t new =
    (lookup-unregister (performed cs) a n t (performed-IsConsistent cs new)).0
    ∙ ap (keep (λ e. not (key_of e === (a, n)))) (lookup-promised cs t new)
lookup-promised (cleaning a ∷ cs) t new =
    lookup-cleanup_for_agent (performed cs) a t (performed-IsConsistent cs new)
    ∙ ap (keep (λ e. not (e.agent_id === a))) (lookup-promised cs t new)
