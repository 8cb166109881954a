-- ===== src/Pty/Handle.antt =====
-- crates/utils/pty/src/process.rs: `ProcessHandle`, which owns the killer of a child process and
-- the handles of its helper tasks. Each owned value is an id, and a method returns the calls that
-- it makes on them. The mutexes are not poisoned, since no method panics under a lock.
pub mod Terminate
use nexal.Prelude.{ℕ, Bool, Option, none, some, List, [], ◌∷◌, ◌++◌, map}
use nexal.Prelude.Int.{ℤ}

pub record ProcessHandle : Type 0 where
  pub writer_tx : Option ℕ
  pub killer : Option ℕ
  pub reader_handle : Option ℕ
  pub reader_abort_handles : List ℕ
  pub writer_handle : Option ℕ
  pub wait_handle : Option ℕ
  pub exit_status : Bool
  pub exit_code : Option ℤ

-- A call on an owned value: `kill` of the child's terminator, `abort` of a task.
pub data Effect : Type 0 where
  kill : ℕ → Effect
  abort : ℕ → Effect

pub effects_of : (ℕ → Effect) → Option ℕ → List Effect
effects_of f none = []
effects_of f (some n) = f n ∷ []

-- The clone of the sender, or `none` for a sender whose receiver is dropped at once.
unfoldable pub writer_sender : ProcessHandle → Option ℕ
writer_sender h = h.writer_tx

unfoldable pub has_exited : ProcessHandle → Bool
has_exited h = h.exit_status

unfoldable pub close_stdin : ProcessHandle → ProcessHandle
close_stdin h = record h { writer_tx = none }

unfoldable pub request_terminate : ProcessHandle → ProcessHandle × List Effect
unfolding effects_of
request_terminate h = (record h { killer = none }, effects_of kill h.killer)

unfoldable pub terminate : ProcessHandle → ProcessHandle × List Effect
unfolding request_terminate effects_of
terminate h =
    let (h', killed) = request_terminate h in
    (
      record h' {
        reader_handle = none;
        reader_abort_handles = [];
        writer_handle = none;
        wait_handle = none;
      },
      killed
          ++ (effects_of abort h'.reader_handle
              ++ (map abort h'.reader_abort_handles
                  ++ (effects_of abort h'.writer_handle ++ effects_of abort h'.wait_handle))),
    )
