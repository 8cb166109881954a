-- ===== src/Process/Read.antt =====
-- crates/nexal-agent/src/process/local.rs, `exec_read`: one page of the retained output.
pub mod Collect
pub mod Paging
use nexal.Prelude.{
  ℕ, Bool, true, false, none, List, [], ◌∷◌, ◌++◌, ◌&&◌, not, length, ltb, leb, if◌then◌else◌,
  is_some, add64,
}
use nexal.Process.Types.{RetainedOutputChunk, RunningProcess, ReadResponse}

-- `process.output.iter().filter(|chunk| chunk.seq > after_seq)`
unfoldable pub newer : ℕ → List RetainedOutputChunk → List RetainedOutputChunk
newer after_seq [] = []
newer after_seq (c ∷ cs) =
    let rest = newer after_seq cs in if ltb after_seq c.seq then c ∷ rest else rest

abbrev pub is_empty {ℓ} : {A : Type ℓ} → List A → Bool
is_empty [] = true
is_empty (x ∷ xs) = false

-- The loop over the filtered chunks, with its two `break`s. The result is `chunks` and `next_seq`.
unfoldable pub collect :
    ℕ → List RetainedOutputChunk → List RetainedOutputChunk → ℕ → ℕ → List RetainedOutputChunk × ℕ
collect max_bytes [] chunks total_bytes next_seq = (chunks, next_seq)
collect max_bytes (retained ∷ more) chunks total_bytes next_seq =
    let total = add64 total_bytes (length retained.chunk) in
    let pushed = chunks ++ retained ∷ [] in
    let next = add64 retained.seq 1 in
    let rest = collect max_bytes more pushed total next in
    if not (is_empty chunks) && ltb max_bytes total
    then (chunks, next_seq)
    else if leb max_bytes total
    then (pushed, next)
    else rest

-- The response that `exec_read` builds under the lock.
unfoldable pub read_page : RunningProcess → ℕ → ℕ → ReadResponse
read_page p after_seq max_bytes =
    let page = collect max_bytes (newer after_seq p.output) [] 0 p.next_seq in
    record {
      chunks = page.0;
      next_seq = page.1;
      exited = is_some p.exit_code;
      exit_code = p.exit_code;
      closed = p.closed;
      failure = none;
    }
