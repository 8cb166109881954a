-- ===== src/Process/Output/Bounds.antt =====
-- The well-formedness of a running process, and that `push_output` keeps it.
use nexal.Prelude.{
  ℕ, ◌+◌, ◌≤◌, ◌<◌, ◌≡◌, refl, sym, true, false, add64, add64-eq, List, [], ◌∷◌, ◌++◌, length,
  arith, is_some, u64_mod, ◌⊎◌, inl, inr, Bool-cases, ltb, ◌-◌,
}
use nexal.Process.Types.{ExecOutputStream, RetainedOutputChunk, RunningProcess}
use nexal.Process.Output.{retained_output_bytes_per_process, evict, push_output}
use nexal.Process.Output.Window.{bytes, bytes-append, evict-IsLongestFit, IsLongestFit}

-- The sequence numbers rise along the list, from `lo` on and below `hi`.
abbrev pub Increasing : ℕ → ℕ → List RetainedOutputChunk → Type 0
Increasing lo hi [] = Unit {0}
Increasing lo hi (c ∷ cs) = (lo ≤ c.seq) × (c.seq < hi) × Increasing (c.seq + 1) hi cs

pub Increasing-mono :
    (lo lo' hi hi' : ℕ) (cs : List RetainedOutputChunk)
    → lo' ≤ lo
    → hi ≤ hi'
    → Increasing lo hi cs
    → Increasing lo' hi' cs
Increasing-mono lo lo' hi hi' [] h k i = tt
Increasing-mono lo lo' hi hi' (c ∷ cs) h k i = (
  omega arith,
  omega arith,
  Increasing-mono (c.seq + 1) (c.seq + 1) hi hi' cs (omega arith) k i.2,
)

Increasing-snoc :
    (lo hi : ℕ) (cs : List RetainedOutputChunk) (c : RetainedOutputChunk)
    → lo ≤ hi
    → c.seq ≡ hi
    → Increasing lo hi cs
    → Increasing lo (hi + 1) (cs ++ c ∷ [])
Increasing-snoc lo hi [] c h e i = (omega arith, omega arith, tt)
Increasing-snoc lo hi (x ∷ xs) c h e i =
    (i.0, omega arith, Increasing-snoc (x.seq + 1) hi xs c (omega arith) e i.2)

Increasing-evict :
    (lo hi : ℕ) (cs : List RetainedOutputChunk) (n : ℕ)
    → Increasing lo hi cs
    → Increasing lo hi (evict cs n).0
unfolding evict
Increasing-evict lo hi [] n i = tt
Increasing-evict lo hi (c ∷ cs) n i =
    let rest = Increasing-evict (c.seq + 1) hi cs (n - length c.chunk) i.2 in
    elim (Bool-cases (ltb retained_output_bytes_per_process n)) [
      | inl over ↦ rw over (Increasing-mono (c.seq + 1) lo hi hi _ (omega arith) (omega arith) rest)
      | inr fits ↦ rw fits i
    ]

pub record IsValid (p : RunningProcess) : Type 0 where
  pub counted : bytes p.output ≡ p.retained_bytes
  pub bounded : p.retained_bytes ≤ retained_output_bytes_per_process
  pub ordered : Increasing 1 p.next_seq p.output
  pub started : 1 ≤ p.next_seq
  pub in_range : p.next_seq < u64_mod
  pub closing : (p.closed ≡ false) ⊎ ((p.open_streams ≡ 0) × (is_some p.exit_code ≡ true))

module _ (p : RunningProcess) (stream : ExecOutputStream) (chunk : List ℕ) (v : IsValid p)
    (fits : length chunk + retained_output_bytes_per_process < u64_mod) where
  abbrev pushed : RetainedOutputChunk
  pushed = record { seq = p.next_seq; stream = stream; chunk = chunk }

  room : add64 p.retained_bytes (length chunk) ≡ p.retained_bytes + length chunk
  room = add64-eq _ _ (omega (arith, v.bounded))

  counted_push : bytes (p.output ++ pushed ∷ []) ≡ add64 p.retained_bytes (length chunk)
  counted_push = rw room (omega (arith, bytes-append p.output (pushed ∷ []), v.counted))

  -- What is retained after a chunk is a suffix of the old output with the chunk behind it, which
  -- fits in the limit, and is the longest one that does.
  pub push_output-IsLongestFit :
      IsLongestFit (p.output ++ pushed ∷ []) (push_output p stream chunk).output
  unfolding push_output
  push_output-IsLongestFit = (evict-IsLongestFit (p.output ++ pushed ∷ []) _ counted_push).0

  -- Within the range of sequence numbers, a chunk keeps the process well formed.
  pub push_output-IsValid : p.next_seq + 1 < u64_mod → IsValid (push_output p stream chunk)
  unfolding push_output
  push_output-IsValid h = rw (add64-eq p.next_seq 1 h) (record {
    counted = sym (evict-IsLongestFit (p.output ++ pushed ∷ []) _ counted_push).1;
    bounded =
        rw (evict-IsLongestFit (p.output ++ pushed ∷ []) _ counted_push).1
          push_output-IsLongestFit.2;
    ordered =
        Increasing-evict 1 (p.next_seq + 1) (p.output ++ pushed ∷ []) _
          (Increasing-snoc 1 p.next_seq p.output pushed v.started refl v.ordered);
    started = omega arith;
    in_range = h;
    closing = v.closing;
  })
