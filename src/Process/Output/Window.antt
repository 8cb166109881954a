-- ===== src/Process/Output/Window.antt =====
-- The eviction loop drops a shortest prefix of the retained output.
use nexal.Prelude.{
  ℕ, ◌-◌, ◌+◌, ◌≤◌, ◌<◌, ◌≡◌, refl, sym, ◌⊎◌, inl, inr, List, [], ◌∷◌, ◌++◌, length, arith, ltb,
  Bool-cases,
}
use nexal.Process.Types.{RetainedOutputChunk}
use nexal.Process.Output.{retained_output_bytes_per_process, evict}

abbrev pub bytes : List RetainedOutputChunk → ℕ
bytes [] = 0
bytes (c ∷ cs) = length c.chunk + bytes cs

pub bytes-append : (xs ys : List RetainedOutputChunk) → bytes (xs ++ ys) ≡ bytes xs + bytes ys
bytes-append [] ys = omega arith
bytes-append (x ∷ xs) ys = omega (arith, bytes-append xs ys)

-- What is kept is a suffix, it fits, and with one chunk more it would not.
abbrev pub IsLongestFit : List RetainedOutputChunk → List RetainedOutputChunk → Type 0
IsLongestFit all kept =
    (dropped : List RetainedOutputChunk) × (all ≡ dropped ++ kept)
    × (bytes kept ≤ retained_output_bytes_per_process)
    × ((dropped ≡ [])
        ⊎ ((earlier : List RetainedOutputChunk) × (last : RetainedOutputChunk) × (dropped
              ≡ earlier ++ last ∷ [])
            × (retained_output_bytes_per_process < bytes (last ∷ kept))))

IsLongestFit-cons :
    (c : RetainedOutputChunk) (cs kept : List RetainedOutputChunk)
    → retained_output_bytes_per_process < bytes (c ∷ cs)
    → IsLongestFit cs kept
    → IsLongestFit (c ∷ cs) kept
IsLongestFit-cons c cs kept over (d, e, f, inl n) =
    (c ∷ d, cc, f, inr ([], c, cc, (rw (e, n) at over)))
IsLongestFit-cons c cs kept over (d, e, f, inr (i, l, n, m)) = (c ∷ d, cc, f, inr (c ∷ i, l, cc, m))

pub evict-IsLongestFit :
    (out : List RetainedOutputChunk) (n : ℕ)
    → bytes out ≡ n
    → IsLongestFit out (evict out n).0 × ((evict out n).1 ≡ bytes (evict out n).0)
unfolding evict
evict-IsLongestFit [] n h = (([], refl, omega arith, inl refl), omega arith)
evict-IsLongestFit (c ∷ cs) n h =
    let rest = evict-IsLongestFit cs (n - length c.chunk) (omega arith) in
    elim (Bool-cases (ltb retained_output_bytes_per_process n)) [
      | inl over ↦ rw over (IsLongestFit-cons c cs _ (ground arith) rest.0, rest.1)
      | inr fits ↦ rw fits (([], refl, ground arith, inl refl), sym h)
    ]
