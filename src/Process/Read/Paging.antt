-- ===== src/Process/Read/Paging.antt =====
-- A client that reads page after page, each from behind the last, sees every retained chunk once.
use nexal.Prelude.{
  ℕ, ◌+◌, ◌-◌, ◌≤◌, ◌<◌, ◌≡◌, refl, sym, ◌∙◌, List, [], ◌∷◌, ◌++◌, arith, ltb, u64_mod, Bool-cases,
  inl, inr,
}
use nexal.Process.Types.{RetainedOutputChunk, RunningProcess}
use nexal.Process.Output.Window.{bytes}
use nexal.Process.Output.Bounds.{Increasing, IsValid}
use nexal.Process.Read.{newer, collect, read_page}
use nexal.Process.Read.Collect.{next_from, InRange, IsFull, Fits, IsPage, collect-IsPage}

-- Chunks that are all newer are all kept.
newer-all :
    (after lo hi : ℕ) (cs : List RetainedOutputChunk)
    → after < lo
    → Increasing lo hi cs
    → newer after cs ≡ cs
unfolding newer
newer-all after lo hi [] h i = refl
newer-all after lo hi (c ∷ cs) h i = ground (arith, newer-all after (c.seq + 1) hi cs, i.0, i.2)

-- and those that are all older are all dropped.
newer-none :
    (after lo hi : ℕ) (cs : List RetainedOutputChunk)
    → hi ≤ after + 1
    → Increasing lo hi cs
    → newer after cs ≡ []
unfolding newer
newer-none after lo hi [] h i = refl
newer-none after lo hi (c ∷ cs) h i = ground (arith, newer-none after (c.seq + 1) hi cs h i.2, i.1)

newer-newer : (a b : ℕ) (cs : List RetainedOutputChunk) → a ≤ b → newer b (newer a cs) ≡ newer b cs
unfolding newer
newer-newer a b [] h = refl
newer-newer a b (c ∷ cs) h = ground (arith, newer-newer a b cs h)

Increasing-newer :
    (after lo hi : ℕ) (cs : List RetainedOutputChunk)
    → Increasing lo hi cs
    → Increasing (after + 1) hi (newer after cs)
unfolding newer
Increasing-newer after lo hi [] i = tt
Increasing-newer after lo hi (c ∷ cs) i = elim (Bool-cases (ltb after c.seq)) [
  | inl h ↦ rw (h, newer-all after (c.seq + 1) hi cs (ground arith) i.2) (ground arith, i.1, i.2)
  | inr h ↦ rw h (Increasing-newer after (c.seq + 1) hi cs i.2)
]

bytes-newer : (after : ℕ) (cs : List RetainedOutputChunk) → bytes (newer after cs) ≤ bytes cs
unfolding newer
bytes-newer after [] = omega arith
bytes-newer after (c ∷ cs) = ground (arith, bytes-newer after cs)

InRange-of :
    (lo hi : ℕ) (cs : List RetainedOutputChunk) → hi < u64_mod → Increasing lo hi cs → InRange cs
InRange-of lo hi [] h i = tt
InRange-of lo hi (c ∷ cs) h i = (omega (arith, i.1), InRange-of (c.seq + 1) hi cs h i.2)

next_from-le :
    (lo hi : ℕ) (cs rest : List RetainedOutputChunk)
    → Increasing lo hi (cs ++ rest)
    → lo ≤ next_from cs lo
next_from-le lo hi [] rest i = omega arith
next_from-le lo hi (c ∷ cs) rest i = omega (arith, next_from-le (c.seq + 1) hi cs rest i.2, i.0)

-- Behind the last chunk of a page stand the chunks that the page left.
newer-next_from :
    (lo hi : ℕ) (taken left : List RetainedOutputChunk)
    → 1 ≤ lo
    → Increasing lo hi (taken ++ left)
    → newer (next_from taken lo - 1) (taken ++ left) ≡ left
unfolding newer
newer-next_from lo hi [] left h i = newer-all (lo - 1) lo hi left (omega arith) i
newer-next_from lo hi (c ∷ cs) left h i =
    let behind = next_from-le (c.seq + 1) hi cs left i.2 in
    let rest = newer-next_from (c.seq + 1) hi cs left (omega arith) i.2 in ground arith

-- A page that took nothing left nothing.
IsFull-nil :
    (max_bytes : ℕ) (left : List RetainedOutputChunk) → IsFull max_bytes [] left → left ≡ []
IsFull-nil max_bytes [] f = refl
IsFull-nil max_bytes (c ∷ cs) f = absurd (f.0 refl)

module _ (p : RunningProcess) (after_seq max_bytes : ℕ) (v : IsValid p) where
  abbrev fresh : List RetainedOutputChunk
  fresh = newer after_seq p.output

  page_lem : IsPage max_bytes [] fresh p.next_seq (collect max_bytes fresh [] 0 p.next_seq)
  page_lem =
      collect-IsPage max_bytes fresh [] 0 p.next_seq
        (InRange-of (after_seq + 1) p.next_seq fresh v.in_range
          (Increasing-newer after_seq 1 p.next_seq p.output v.ordered))
        refl (omega (arith, bytes-newer after_seq p.output, v.counted, v.bounded))
        (inr (omega arith))

  newer-left :
      (taken left : List RetainedOutputChunk)
      → fresh ≡ taken ++ left
      → IsFull max_bytes taken left
      → newer (next_from taken p.next_seq - 1) p.output ≡ left
  newer-left [] left e f =
      newer-none _ 1 p.next_seq p.output (omega (arith, v.started)) v.ordered
      ∙ sym (IsFull-nil max_bytes left f)
  newer-left (c ∷ cs) left e f =
      let i : Increasing (after_seq + 1) p.next_seq (c ∷ cs ++ left) =
        rw e at (Increasing-newer after_seq 1 p.next_seq p.output v.ordered) in
      let behind = next_from-le (c.seq + 1) p.next_seq cs left i.2 in
      rw (← newer-newer after_seq (next_from cs (c.seq + 1) - 1) p.output (omega (arith, i.0)), e)
        (newer-next_from (after_seq + 1) p.next_seq (c ∷ cs) left (omega arith) i)

  -- The newer chunks are the page, and then the chunks that a read behind the page selects: none
  -- is missed, and none comes twice.
  pub read_page-append :
      newer after_seq p.output
      ≡ (read_page p after_seq max_bytes).chunks
        ++ newer ((read_page p after_seq max_bytes).next_seq - 1) p.output
  unfolding read_page
  read_page-append =
      let g = page_lem in
      rw (g.page_eq, g.next_eq, newer-left g.taken g.left g.split (rw g.page_eq at g.full)) g.split

  -- A page keeps the byte limit unless it is one chunk, and ends early only behind a chunk and
  -- where the next one would pass the limit or the limit is reached.
  pub read_page_limits :
      Fits max_bytes (read_page p after_seq max_bytes).chunks
      × IsFull max_bytes
          (read_page p after_seq max_bytes).chunks
          (newer ((read_page p after_seq max_bytes).next_seq - 1) p.output)
  unfolding read_page
  read_page_limits =
      let g = page_lem in
      (g.fits, rw (g.next_eq, newer-left g.taken g.left g.split (rw g.page_eq at g.full)) g.full)
