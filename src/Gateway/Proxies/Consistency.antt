-- ===== src/Gateway/Proxies/Consistency.antt =====
-- crates/nexal-gateway/src/proxy/registry.rs: the two maps stay inverse to one another.
use nexal.Prelude.{
  String, string_eq, pair_eq, ◌===◌, eq_lem, Bool-cases, Option-cases, Bool, true, false, Option,
  none, some, List, [], ◌∷◌, ◌≡◌, if◌then◌else◌, arith, inl, inr, not, refl, sym, ◌∙◌,
}
use nexal.Gateway.Keys.{Key}
use nexal.Prelude.Map
use nexal.Prelude.Map.{Map, get-remove, get-insert, get-insert_self, get-remove_self}
use nexal.Gateway.Proxies.{Inner, ProxyEntry, remove_key, drop_token, register, remove_keys}

abbrev pub key_of : ProxyEntry → Key
key_of e = (e.agent_id, e.name)

-- The two maps are inverse to one another, and an entry stands under its own token.
pub record IsConsistent (inner : Inner) : Type 0 where
  pub indexed :
      (token : String) (e : ProxyEntry)
      → Map.get inner.by_token token ≡ some e
      → Map.get inner.index (key_of e) ≡ some token
  pub own_token :
      (token : String) (e : ProxyEntry) → Map.get inner.by_token token ≡ some e → e.token ≡ token
  pub held :
      (key : Key) (token : String)
      → Map.get inner.index key ≡ some token
      → (e : ProxyEntry) × (Map.get inner.by_token token ≡ some e) × (key_of e ≡ key)

abbrev pub keep : (ProxyEntry → Bool) → Option ProxyEntry → Option ProxyEntry
keep p none = none
keep p (some e) = if p e then some e else none

abbrev pub other_key : Key → ProxyEntry → Bool
other_key key e = not (key_of e === key)

-- How `remove_key` reads
get-drop_token :
    (inner : Inner) (key : Key) (o : Option String) (t : String)
    → IsConsistent inner
    → Map.get inner.index key ≡ o
    → Map.get (drop_token inner key o).by_token t ≡ keep (other_key key) (Map.get inner.by_token t)
unfolding drop_token
get-drop_token inner key none t consistent h = elim (Option-cases (Map.get inner.by_token t)) [
  | inl e ↦ rw e refl
  | inr (e, he) ↦ rw he (ground (arith, consistent.indexed t e he, eq_lem (key_of e) key, h))
]
get-drop_token inner key (some token) t consistent h =
    elim (Option-cases (Map.get inner.by_token t)) [
      | inl e ↦ rw e (ground (arith, get-remove inner.by_token token t))
      | inr (e, he) ↦ rw he (
          ground (
            arith,
            get-remove inner.by_token token t,
            string_eq.beq_iff token t,
            consistent.indexed t e he,
            consistent.held key token h,
            eq_lem (key_of e) key,
            h,
          ))
    ]

get_index-drop_token :
    (inner : Inner) (key k : Key) (o : Option String)
    → Map.get inner.index key ≡ o
    → Map.get (drop_token inner key o).index k ≡ (if key === k then none else Map.get inner.index k)
unfolding drop_token
get_index-drop_token inner key k none h = ground (arith, eq_lem key k)
get_index-drop_token inner key k (some token) h = get-remove inner.index key k

pub lookup-remove_key :
    (inner : Inner) (key : Key) (t : String)
    → IsConsistent inner
    → Map.get (remove_key inner key).by_token t ≡ keep (other_key key) (Map.get inner.by_token t)
unfolding remove_key
lookup-remove_key inner key t consistent =
    get-drop_token inner key (Map.get inner.index key) t consistent refl

get_index-remove_key :
    (inner : Inner) (key k : Key)
    → Map.get (remove_key inner key).index k ≡ (if key === k then none else Map.get inner.index k)
unfolding remove_key
get_index-remove_key inner key k = get_index-drop_token inner key k (Map.get inner.index key) refl

if_some :
    {A : Type 0} (b : Bool) (o : Option A) (a : A)
    → (if b then o else none) ≡ some a
    → (b ≡ true) × (o ≡ some a)
if_some b o a h = ground arith

if_none :
    {A : Type 0} (b : Bool) (o : Option A) (a : A)
    → (if b then none else o) ≡ some a
    → (b ≡ false) × (o ≡ some a)
if_none b o a h = ground arith

keep-some :
    (p : ProxyEntry → Bool) (o : Option ProxyEntry) (e : ProxyEntry)
    → keep p o ≡ some e
    → (o ≡ some e) × (p e ≡ true)
keep-some p none e h = ground arith
keep-some p (some a) e h = let kept = if_some (p a) (some a) e h in (kept.1, ground (arith, kept))

pub remove_key-IsConsistent :
    (inner : Inner) (key : Key) → IsConsistent inner → IsConsistent (remove_key inner key)
remove_key-IsConsistent inner key c = record {
  indexed = λ t e h.
      let was =
        keep-some (other_key key) (Map.get inner.by_token t) e
          (sym (lookup-remove_key inner key t c) ∙ h) in
      ground (
        arith,
        get_index-remove_key inner key (key_of e),
        c.indexed t e was.0,
        was,
        eq_lem (key_of e) key,
        eq_lem key (key_of e),
      );
  own_token = λ t e h.
      let was =
        keep-some (other_key key) (Map.get inner.by_token t) e
          (sym (lookup-remove_key inner key t c) ∙ h) in
      c.own_token t e was.0;
  held = λ k t h.
      let was =
        if_none (key === k) (Map.get inner.index k) t
          (sym (get_index-remove_key inner key k) ∙ h) in
      let found = c.held k t was.1 in
      (
        found.0,
        ground (
          arith,
          lookup-remove_key inner key t c,
          found.1,
          found.2,
          was,
          eq_lem (key_of found.0) key,
          eq_lem key k,
        ),
        found.2,
      );
}

pub register-IsConsistent :
    (inner : Inner) (token agent_id name url : String) (headers : Map String String)
    → IsConsistent inner
    → Map.get inner.by_token token ≡ none
    → IsConsistent (register inner token agent_id name url headers).0
unfolding register
register-IsConsistent inner token agent_id name url headers c fresh =
    let kept = remove_key inner (agent_id, name) in
    let entry : ProxyEntry = record {
      agent_id = agent_id;
      name = name;
      upstream_url = url;
      headers = headers;
      token = token;
    } in
    let ck = remove_key-IsConsistent inner (agent_id, name) c in
    record {
      indexed = λ t e h. ground (
        arith,
        get-insert kept.by_token token t entry,
        get-insert kept.index (agent_id, name) (key_of e) token,
        h,
        string_eq.beq_iff token t,
        ck.indexed t e,
        eq_lem (agent_id, name) (key_of e),
        get_index-remove_key inner (agent_id, name) (key_of e),
      );
      own_token = λ t e h. ground (
        arith,
        get-insert kept.by_token token t entry,
        h,
        string_eq.beq_iff token t,
        ck.own_token t e,
      );
      held = λ k t h. elim (Bool-cases ((agent_id, name) === k)) [
        | inl same ↦ (
          entry,
          ground (
            arith,
            get-insert kept.by_token token t entry,
            get-insert kept.index (agent_id, name) k token,
            h,
            same,
            string_eq.beq_iff token t,
          ),
          (eq_lem (agent_id, name) k).0 same,
        )
        | inr other ↦
            let found =
              ck.held k t
                (ground (arith, get-insert kept.index (agent_id, name) k token, h, other)) in
            (
              found.0,
              ground (
                arith,
                get-insert kept.by_token token t entry,
                found.1,
                string_eq.beq_iff token t,
                fresh,
                lookup-remove_key inner (agent_id, name) token c,
              ),
              found.2,
            )
      ];
    }

pub remove_keys-IsConsistent :
    (inner : Inner) (keys : List Key) → IsConsistent inner → IsConsistent (remove_keys inner keys)
unfolding remove_keys
remove_keys-IsConsistent inner [] c = c
remove_keys-IsConsistent inner (key ∷ keys) c =
    remove_keys-IsConsistent (remove_key inner key) keys (remove_key-IsConsistent inner key c)
