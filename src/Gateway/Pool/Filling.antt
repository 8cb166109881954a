-- ===== src/Gateway/Pool/Filling.antt =====
-- crates/nexal-gateway/src/pool.rs: how `take` and `replenish` change the idle containers.
use nexal.Prelude.{
  ℕ, ◌+◌, ◌≤◌, max, true, Option, none, some, List, [], ◌∷◌, ◌++◌, ◌≡◌, refl, length, leb, arith,
  add64, inl, inr, Bool-cases, append-nil, append_assoc, sym, ◌∙◌, ◌<◌, leb→le,
}
use nexal.Gateway.Pool.{
  ContainerHandle, WarmPool, pop, take, available_count, create_one, replenish,
}

pop-append : (l : List ContainerHandle) (h : ContainerHandle) → pop (l ++ (h ∷ [])) ≡ (l, some h)
unfolding pop
pop-append [] h = refl
pop-append (a ∷ []) h = refl
pop-append (a ∷ b ∷ l) h = simp (pop-append (b ∷ l) h)

le→leb : (a b : ℕ) → a ≤ b → leb a b ≡ true
le→leb a b h = ground arith

-- A container that was just created is the next one that is handed out, and the others stay.
pub take-create_one :
    (pool : WarmPool) (handle : ContainerHandle)
    → take (create_one pool (some handle)).0
      ≡ (record pool { counter = add64 pool.counter 1 }, some handle)
unfolding take create_one
take-create_one pool handle = simp (pop-append pool.available handle)

abbrev pub created : List (Option ContainerHandle) → List ContainerHandle
created [] = []
created (none ∷ answers) = created answers
created (some h ∷ answers) = h ∷ created answers

length-snoc :
    (l : List ContainerHandle) (h : ContainerHandle) → length (l ++ (h ∷ [])) ≡ length l + 1
length-snoc [] h = refl
length-snoc (a ∷ l) h = ground (arith, length-snoc l h)

abbrev pub Fills : WarmPool → Option WarmPool → Type 0
Fills pool answer =
    (filled : WarmPool) × (new : List ContainerHandle) × (answer ≡ some filled)
    × (filled.available ≡ pool.available ++ new)
    × (length filled.available ≡ max pool.target_size (length pool.available))

full-Fills : (pool : WarmPool) → pool.target_size ≤ length pool.available → Fills pool (some pool)
full-Fills pool full = (pool, [], refl, sym (append-nil pool.available), omega arith)

grown-Fills :
    (pool : WarmPool) (h : ContainerHandle) (o : Option WarmPool)
    → length pool.available < pool.target_size
    → Fills (create_one pool (some h)).0 o
    → Fills pool o
unfolding create_one
grown-Fills pool h o room (filled, new, e, grown, size) = (
  filled,
  h ∷ new,
  e,
  grown ∙ append_assoc pool.available (h ∷ []) new,
  ground (arith, size, length-snoc pool.available h),
)

-- When the backend gives enough containers, the loop ends with the pool filled to its target and
-- no further, and the containers that were idle stay in front.
pub replenish-Fills :
    (pool : WarmPool) (answers : List (Option ContainerHandle))
    → pool.target_size ≤ length pool.available + length (created answers)
    → Fills pool (replenish pool answers)
unfolding replenish available_count create_one
replenish-Fills pool [] enough =
    rw (le→leb pool.target_size (length pool.available) (omega arith))
      (full-Fills pool (omega arith))
replenish-Fills pool (none ∷ answers) enough =
    elim (Bool-cases (leb pool.target_size (length pool.available))) [
      | inl full ↦ rw full (full-Fills pool (leb→le _ _ full))
      | inr room ↦ rw room (replenish-Fills (create_one pool none).0 answers enough)
    ]
replenish-Fills pool (some h ∷ answers) enough =
    elim (Bool-cases (leb pool.target_size (length pool.available))) [
      | inl full ↦ rw full (full-Fills pool (leb→le _ _ full))
      | inr room ↦ rw room (
          grown-Fills pool h _ (ground arith) (
            replenish-Fills (create_one pool (some h)).0 answers
              (ground (arith, length-snoc pool.available h))))
    ]
