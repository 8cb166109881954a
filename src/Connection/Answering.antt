-- ===== src/Connection/Answering.antt =====
-- crates/utils/transport/src/connection.rs: each request of a connection waits in one channel, or
-- has had its one answer.
use nexal.Prelude.{
  ℕ, zero, suc, ◌+◌, ◌≤◌, ◌<◌, String, string_eq, ◌===◌, eq_lem, Option, none, some, List, [], ◌∷◌,
  ◌++◌, ◌≡◌, refl, if◌then◌else◌, arith, Bool-cases, inl, inr, length, is_some, ltb,
}
use nexal.Prelude.Map
use nexal.Prelude.Map.{Map}
use nexal.Wire.Values.{Values}
use nexal.Connection.Envelope.{WireMessage, request, response, notification, WireCodec}
use nexal.Connection.Channel.{
  ChannelState, Effect, resolve, notify, serve, write, failed, dispatch, reject_all_pending,
  reject_pending, call_handlers, call_all, call_one, id_to_key, nil_or,
}
use nexal.Connection.Store.{at, reject_each}

abbrev pub count : String → List String → ℕ
count i [] = 0
count i (j ∷ js) = (if i === j then 1 else 0) + count i js

abbrev pub keys : Map String (Unit {0}) → List String
keys [] = []
keys ((i, w) ∷ m) = i ∷ keys m

-- The requests that a list of effects answers
abbrev pub resolved : {Value Frame : Type 0} → List (Effect Value Frame) → List String
resolved [] = []
resolved (resolve id answer ∷ es) = id ∷ resolved es
resolved (notify h params ∷ es) = resolved es
resolved (serve h stream id params ∷ es) = resolved es
resolved (write frame ∷ es) = resolved es
resolved (failed ∷ es) = resolved es

pub count-append : (i : String) (l m : List String) → count i (l ++ m) ≡ count i l + count i m
count-append i [] m = omega arith
count-append i (j ∷ l) m = ground (arith, count-append i l m)

pub resolved-append :
    {Value Frame : Type 0} (i : String) (es fs : List (Effect Value Frame))
    → count i (resolved (es ++ fs)) ≡ count i (resolved es) + count i (resolved fs)
resolved-append i [] fs = omega arith
resolved-append i (resolve id answer ∷ es) fs = ground (arith, resolved-append i es fs)
resolved-append i (notify h params ∷ es) fs = resolved-append i es fs
resolved-append i (serve h stream id params ∷ es) fs = resolved-append i es fs
resolved-append i (write frame ∷ es) fs = resolved-append i es fs
resolved-append i (failed ∷ es) fs = resolved-append i es fs

pub count-remove :
    (m : Map String (Unit {0})) (i j : String)
    → count i (keys (Map.remove m j)) ≡ (if i === j then 0 else count i (keys m))
unfolding Map.remove
count-remove [] i j = ground arith
count-remove ((k, w) ∷ m) i j =
    ground (arith, count-remove m i j, eq_lem i j, eq_lem k j, eq_lem i k)

get-count :
    (m : Map String (Unit {0})) (i : String) → is_some (Map.get m i) ≡ ltb 0 (count i (keys m))
unfolding Map.get
get-count [] i = ground arith
get-count ((k, w) ∷ m) i = ground (arith, get-count m i, eq_lem i k, eq_lem k i)

-- What an operation on a channel does to a request: it adds to what waits, or answers.
unfoldable pub Balanced :
    {Value Frame : Type 0}
    → String
    → ℕ
    → ChannelState
    → ChannelState × List (Effect Value Frame)
    → Type 0
Balanced i more before after =
    count i (keys after.0.pending) + count i (resolved after.1)
    ≡ count i (keys before.pending) + more

unfoldable pub waits : String → List ChannelState → ℕ
waits i [] = 0
waits i (c ∷ cs) = count i (keys c.pending) + waits i cs

pub waits-append :
    (i : String) (cs ds : List ChannelState) → waits i (cs ++ ds) ≡ waits i cs + waits i ds
unfolding waits
waits-append i [] ds = omega arith
waits-append i (c ∷ cs) ds = ground (arith, waits-append i cs ds)

module _ {Value Frame : Type 0} where
  -- An operation that moves requests from waiting to answered, wherever it finds them
  pub at-waits :
      (i : String) (more : ℕ) (op : ChannelState → ChannelState × List (Effect Value Frame))
      (cs : List ChannelState) (place : ℕ)
      → place < length cs
      → ((c : ChannelState) → count i (keys c.pending) ≤ waits i cs → Balanced i more c (op c))
      → waits i (at op cs place).0 + count i (resolved (at op cs place).1) ≡ waits i cs + more
  unfolding at waits Balanced
  at-waits i more op [] place h balanced = ground (arith, h)
  at-waits i more op (c ∷ cs) zero h balanced = ground (arith, balanced c (omega arith))
  at-waits i more op (c ∷ cs) (suc place) h balanced = ground (
    arith,
    at-waits i more op cs place (ground (arith, h)) (λ d le. balanced d (ground (arith, le))),
  )

  at-beyond :
      (op : ChannelState → ChannelState × List (Effect Value Frame)) (cs : List ChannelState)
      (place : ℕ)
      → length cs ≤ place
      → at op cs place ≡ (cs, [])
  unfolding at
  at-beyond op [] place h = refl
  at-beyond op (c ∷ cs) zero h = ground (arith, h)
  at-beyond op (c ∷ cs) (suc place) h = rw (at-beyond op cs place (ground (arith, h))) refl

  -- An operation that only answers keeps the balance also where there is no channel.
  pub at-answers :
      (i : String) (op : ChannelState → ChannelState × List (Effect Value Frame))
      (cs : List ChannelState) (place : ℕ)
      → ((c : ChannelState) → count i (keys c.pending) ≤ waits i cs → Balanced i 0 c (op c))
      → waits i (at op cs place).0 + count i (resolved (at op cs place).1) ≡ waits i cs
  at-answers i op cs place balanced = elim (Bool-cases (ltb place (length cs))) [
    | inl inside ↦ ground (arith, at-waits i 0 op cs place (ground (arith, inside)) balanced)
    | inr beyond ↦ simp (at-beyond op cs place (ground (arith, beyond))) (omega arith)
  ]

module _ (Value Frame : Type 0) where
  pub reject_pending-resolved :
      (i reason : String) (m : Map String (Unit {0}))
      → count i (resolved (reject_pending {Value = Value} {Frame = Frame} reason m))
        ≡ count i (keys m)
  unfolding reject_pending
  reject_pending-resolved i reason [] = refl
  reject_pending-resolved i reason ((k, w) ∷ m) = ground (arith, reject_pending-resolved i reason m)

  pub reject_all_pending-Balanced :
      (i reason : String) (c : ChannelState)
      → Balanced {Value = Value} {Frame = Frame} i 0 c (reject_all_pending reason c)
  unfolding Balanced reject_all_pending
  reject_all_pending-Balanced i reason c =
      ground (arith, reject_pending-resolved i reason c.pending)

  pub reject_each-waits :
      (i reason : String) (cs : List ChannelState) (streams : Map String ℕ)
      → waits i (reject_each {Value = Value} {Frame = Frame} reason cs streams).0
          + count i (resolved (reject_each {Value = Value} {Frame = Frame} reason cs streams).1)
        ≡ waits i cs
  unfolding reject_each
  reject_each-waits i reason cs [] = omega arith
  reject_each-waits i reason cs ((id, place) ∷ streams) =
      let one = at (reject_all_pending {Value = Value} {Frame = Frame} reason) cs place in
      let first =
        at-answers i (reject_all_pending reason) cs place
          (λ c le. reject_all_pending-Balanced i reason c) in
      let rest = reject_each-waits i reason one.0 streams in
      rw (resolved-append i one.1 (reject_each reason one.0 streams).1) (omega (arith, first, rest))

  call_handlers-resolved :
      (params : Value) (hs : List ℕ)
      → resolved (call_handlers {Value = Value} {Frame = Frame} params hs) ≡ []
  unfolding call_handlers
  call_handlers-resolved params [] = refl
  call_handlers-resolved params (h ∷ hs) = call_handlers-resolved params hs

  call_all-resolved :
      (params : Value) (hs : Option (List ℕ))
      → resolved (call_all {Value = Value} {Frame = Frame} params hs) ≡ []
  unfolding call_all
  call_all-resolved params none = refl
  call_all-resolved params (some hs) = call_handlers-resolved params hs

  call_one-resolved :
      (stream : Option String) (id params : Value) (h : Option ℕ)
      → resolved (call_one {Value = Value} {Frame = Frame} stream id params h) ≡ []
  unfolding call_one
  call_one-resolved stream id params none = refl
  call_one-resolved stream id params (some h) = refl

  pub insert-Balanced :
      (i id : String) (c : ChannelState)
      → (i ≡ id → count i (keys c.pending) ≡ 0)
      → Balanced {Value = Value} {Frame = Frame} i
          (if i === id then 1 else 0)
          c
          (record c { pending = Map.insert c.pending id tt }, [])
  unfolding Balanced Map.insert
  insert-Balanced i id c new = elim (Bool-cases (i === id)) [
    | inl same ↦ ground (arith, count-remove c.pending i id, new ((eq_lem i id).0 same), same)
    | inr other ↦ ground (arith, count-remove c.pending i id, other)
  ]

-- A message answers at most the request whose key it carries, as long as that waits once.
pub dispatch-Balanced :
    {Value Frame : Type 0} ⦃values : Values Value⦄ (codec : WireCodec Value Frame) (i : String)
    (c : ChannelState) (msg : WireMessage Value)
    → count i (keys c.pending) ≤ 1
    → Balanced i 0 c (dispatch codec c msg)
unfolding Balanced dispatch Map.contains_key
dispatch-Balanced codec i c (response resp) once =
    let key = id_to_key codec resp.id in
    ground (arith, count-remove c.pending i key, get-count c.pending key, eq_lem i key, once)
dispatch-Balanced codec i c (notification n) once =
    rw (call_all-resolved _ _ (nil_or n.params) (Map.get c.notification_handlers n.method))
      (omega arith)
dispatch-Balanced codec i c (request r) once =
    rw (call_one-resolved _ _ r.stream r.id (nil_or r.params) (Map.get c.request_handlers r.method))
      (omega arith)
