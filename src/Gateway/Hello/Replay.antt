-- ===== src/Gateway/Hello/Replay.antt =====
-- crates/nexal-gateway/src/server/session.rs: the nonce cache and the time window together keep a
-- hello from being accepted twice.
use nexal.Prelude.{
  ℕ, ◌+◌, ◌-◌, ◌≤◌, ◌<◌, String, string_eq, ◌===◌, Bool, true, false, Option, none, some, List, [],
  ◌∷◌, ◌≡◌, ◌≢◌, ◌∙◌, ap, leb, arith, sub64, Bool-cases, inl, inr, eq_lem, ◌⊎◌,
}
use nexal.Prelude.Map
use nexal.Prelude.Map.{Map, get-insert, get-insert_self}
use nexal.Gateway.Hello.{
  HelloParams, NonceCache, accepted, is_stale, i64_abs, i64_le, retain, verify_hello, with_secret,
  check_nonce,
}

sub64-le : (a b : ℕ) → b ≤ a → a < 18446744073709551616 → sub64 a b ≡ a - b
sub64-le a b h bound = omega arith

sub64-lt : (a b : ℕ) → a < b → b < 18446744073709551616 → sub64 a b ≡ a + 18446744073709551616 - b
sub64-lt a b h bound = omega arith

-- The first of these is the least number, whose `abs` wraps.
is_stale-cases :
    (now ts : ℕ)
    → now < 4611686018427387904
    → ts < 18446744073709551616
    → is_stale now ts ≡ false
    → ((now + 9223372036854775808 ≡ ts) ⊎ ((now ≤ ts + 300) × (ts ≤ now + 300)))
      ⊎ (now + 18446744073709551616 ≤ ts + 300)
unfolding is_stale i64_abs i64_le
is_stale-cases now ts bound range h = elim (Bool-cases (leb ts now)) [
  | inl before ↦ ground (arith, sub64-le now ts)
  | inr behind ↦ ground (arith, sub64-lt now ts, sub64-lt 0 (now + 18446744073709551616 - ts))
]

-- Two times at which one and the same `ts` is in the window are at most 600 seconds apart.
window :
    (first now ts : ℕ)
    → first ≤ now
    → now < 4611686018427387904
    → ts < 18446744073709551616
    → is_stale first ts ≡ false
    → is_stale now ts ≡ false
    → now ≤ first + 600
window first now ts order bound range h k =
    ground (arith, is_stale-cases first ts, is_stale-cases now ts)

soon_le :
    (now first : ℕ)
    → first ≤ now
    → now < 4611686018427387904
    → now ≤ first + 600
    → i64_le (sub64 now first) 600 ≡ true
unfolding i64_le
soon_le now first order bound soon = ground (arith, sub64-le now first)

get-retain :
    (now first : ℕ) (cache : NonceCache) (nonce : String)
    → first ≤ now
    → now < 4611686018427387904
    → now ≤ first + 600
    → Map.get cache nonce ≡ some first
    → Map.get (retain now cache) nonce ≡ some first
unfolding retain Map.get
get-retain now first [] nonce order bound soon h = ground arith
get-retain now first ((n, seen) ∷ cache) nonce order bound soon h =
    ground (arith, soon_le now first, get-retain now first cache nonce)

-- Calls at times that do not go back, from `first` until `now`
abbrev pub Between : ℕ → ℕ → List (ℕ × HelloParams) → Type 0
Between first now [] = first ≤ now
Between first now ((t, p) ∷ calls) = (first ≤ t) × Between t now calls

Between-le :
    (first now : ℕ) (calls : List (ℕ × HelloParams)) → Between first now calls → first ≤ now
Between-le first now [] h = h
Between-le first now ((t, p) ∷ calls) (h, k) = ground (arith, h, Between-le t now calls k)

module _ (show : ℕ → String) (hmac_verify : String → String → List ℕ → Bool)
    (credentials : Map String String) where
  check_nonce-accepted :
      (cache : NonceCache) (now : ℕ) (secret : String) (p : HelloParams)
      → (check_nonce show hmac_verify cache now secret p).1 ≡ accepted
      → Map.get (check_nonce show hmac_verify cache now secret p).0 p.nonce ≡ some now
  unfolding check_nonce
  check_nonce-accepted cache now secret p h = elim (Bool-cases (Map.contains_key cache p.nonce)) [
    | inl seen ↦ ground (arith, h, seen)
    | inr new ↦ rw new (get-insert_self cache p.nonce now)
  ]

  with_secret-accepted :
      (cache : NonceCache) (now : ℕ) (p : HelloParams) (secret : Option String)
      → (with_secret show hmac_verify cache now p secret).1 ≡ accepted
      → (is_stale now p.ts ≡ false)
        × (Map.get (with_secret show hmac_verify cache now p secret).0 p.nonce ≡ some now)
  unfolding with_secret
  with_secret-accepted cache now p none h = ground arith
  with_secret-accepted cache now p (some secret) h = elim (Bool-cases (is_stale now p.ts)) [
    | inl stale ↦ ground (arith, h, stale)
    | inr fresh ↦
        (fresh, rw fresh (check_nonce-accepted (retain now cache) now secret p (simp fresh at h)))
  ]

  check_nonce-keeps :
      (cache : NonceCache) (now first : ℕ) (secret : String) (p : HelloParams) (nonce : String)
      → Map.get cache nonce ≡ some first
      → Map.get (check_nonce show hmac_verify cache now secret p).0 nonce ≡ some first
  unfolding check_nonce Map.contains_key
  check_nonce-keeps cache now first secret p nonce h = elim (Bool-cases (p.nonce === nonce)) [
    | inl same ↦ ground (arith, ap (Map.get cache) ((eq_lem p.nonce nonce).0 same), h)
    | inr other ↦ ground (arith, get-insert cache p.nonce nonce now, h, other)
  ]

  with_secret-keeps :
      (cache : NonceCache) (now first : ℕ) (p : HelloParams) (secret : Option String)
      (nonce : String)
      → first ≤ now
      → now < 4611686018427387904
      → now ≤ first + 600
      → Map.get cache nonce ≡ some first
      → Map.get (with_secret show hmac_verify cache now p secret).0 nonce ≡ some first
  unfolding with_secret
  with_secret-keeps cache now first p none nonce order bound soon h = h
  with_secret-keeps cache now first p (some secret) nonce order bound soon h =
      elim (Bool-cases (is_stale now p.ts)) [
        | inl stale ↦ rw stale h
        | inr fresh ↦ rw fresh (
            check_nonce-keeps (retain now cache) now first secret p nonce
              (get-retain now first cache nonce order bound soon h))
      ]

  with_secret-rejects :
      (cache : NonceCache) (now first : ℕ) (p : HelloParams) (secret : Option String)
      → first ≤ now
      → now < 4611686018427387904
      → p.ts < 18446744073709551616
      → is_stale first p.ts ≡ false
      → Map.get cache p.nonce ≡ some first
      → (with_secret show hmac_verify cache now p secret).1 ≢ accepted
  unfolding with_secret check_nonce Map.contains_key
  with_secret-rejects cache now first p none order bound range fresh h e = ground arith
  with_secret-rejects cache now first p (some secret) order bound range fresh h e =
      elim (Bool-cases (is_stale now p.ts)) [
        | inl stale ↦ ground (arith, stale, e)
        | inr still ↦ ground (
          arith,
          still,
          e,
          get-retain now first cache p.nonce order bound
              (window first now p.ts order bound range fresh still) h,
        )
      ]

  unfoldable pub hellos : NonceCache → List (ℕ × HelloParams) → NonceCache
  unfolding verify_hello
  hellos cache [] = cache
  hellos cache ((t, p) ∷ calls) =
      hellos (verify_hello show hmac_verify credentials cache t p).0 calls

  hellos-keep :
      (cache : NonceCache) (first since now : ℕ) (calls : List (ℕ × HelloParams)) (nonce : String)
      → first ≤ since
      → now < 4611686018427387904
      → now ≤ first + 600
      → Between since now calls
      → Map.get cache nonce ≡ some first
      → Map.get (hellos cache calls) nonce ≡ some first
  unfolding hellos verify_hello
  hellos-keep cache first since now [] nonce order bound soon between h = h
  hellos-keep cache first since now ((t, p) ∷ calls) nonce order bound soon (after, between) h =
      let before = Between-le t now calls between in
      hellos-keep (verify_hello show hmac_verify credentials cache t p).0 first t now calls nonce
        (ground (arith, order, after)) bound soon between
        (with_secret-keeps cache t first p (Map.get credentials p.access_key) nonce
          (ground (arith, order, after)) (ground (arith, bound, before))
          (ground (arith, soon, before)) h)

-- A hello that was accepted is not accepted again: whatever hellos come between, a later one with
-- its nonce and its time is refused, as long as the clock does not go back and shows less than 2^62
-- seconds.
pub replayed-accepted :
    (show : ℕ → String) (hmac_verify : String → String → List ℕ → Bool)
    (credentials : Map String String) (cache : NonceCache) (first now : ℕ) (p q : HelloParams)
    (calls : List (ℕ × HelloParams))
    → (verify_hello show hmac_verify credentials cache first p).1 ≡ accepted
    → Between first now calls
    → now < 4611686018427387904
    → q.ts < 18446744073709551616
    → q.nonce ≡ p.nonce
    → q.ts ≡ p.ts
    → (verify_hello show hmac_verify credentials
        (hellos show hmac_verify credentials
          (verify_hello show hmac_verify credentials cache first p).0
          calls)
        now
        q).1
      ≢ accepted
unfolding verify_hello
replayed-accepted show hmac credentials cache first now p q calls h between bound range nonce ts
      again =
    let was =
      with_secret-accepted show hmac credentials cache first p (Map.get credentials p.access_key)
        h in
    let order = Between-le first now calls between in
    let seen = (verify_hello show hmac credentials cache first p).0 in
    let late = hellos show hmac credentials seen calls in
    let still =
      (with_secret-accepted show hmac credentials late now q (Map.get credentials q.access_key)
        again).0 in
    let fresh = ap (is_stale first) ts ∙ was.0 in
    let soon = window first now q.ts order bound range fresh still in
    with_secret-rejects show hmac credentials late now first q (Map.get credentials q.access_key)
      order bound range fresh
      (ap (Map.get late) nonce
        ∙ hellos-keep show hmac credentials seen first first now calls p.nonce (omega arith) bound
            soon between was.1)
      again
