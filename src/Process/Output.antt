-- ===== src/Process/Output.antt =====
-- crates/nexal-agent/src/process/local.rs: the retained output of a process, a window on its
-- stream of chunks. `stream_output` appends at the back and evicts from the front.
pub mod Bounds
pub mod Window
use nexal.Prelude.{ℕ, ◌*◌, ◌-◌, List, [], ◌∷◌, ◌++◌, length, ltb, if◌then◌else◌, add64}
use nexal.Process.Types.{ExecOutputStream, RetainedOutputChunk, RunningProcess}

abbrev pub retained_output_bytes_per_process : ℕ
retained_output_bytes_per_process = 1024 * 1024

-- The loop `while retained_bytes > LIMIT`, with its early exit on an empty window.
unfoldable pub evict : List RetainedOutputChunk → ℕ → List RetainedOutputChunk × ℕ
evict [] retained_bytes = ([], retained_bytes)
evict (evicted ∷ output) retained_bytes =
    let rest = evict output (retained_bytes - length evicted.chunk) in
    if ltb retained_output_bytes_per_process retained_bytes
    then rest
    else (evicted ∷ output, retained_bytes)

-- The critical section of `stream_output` on one chunk.
unfoldable pub push_output : RunningProcess → ExecOutputStream → List ℕ → RunningProcess
push_output p stream chunk =
    let seq = p.next_seq in
    let pushed =
      evict (p.output ++ record { seq = seq; stream = stream; chunk = chunk } ∷ [])
        (add64 p.retained_bytes (length chunk)) in
    record p {
      next_seq = add64 p.next_seq 1;
      output = pushed.0;
      retained_bytes = pushed.1;
      wake_tx = seq;
    }
