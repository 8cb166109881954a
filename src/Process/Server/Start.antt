-- ===== src/Process/Server/Start.antt =====
-- `start_process`: an id is reserved before the spawn, once, and given back when the spawn fails.
use nexal.Prelude.{
  List, [], ◌∷◌, String, string_eq, Bool, true, false, not, ◌&&◌, Option, some, ◌≡◌, refl, arith,
  if◌then◌else◌, ◌===◌, eq_self,
}
use nexal.Prelude.Map
use nexal.Prelude.Map.{get-remove, get-insert, get-insert_self}
use nexal.Process.Types.{ProcessId, ExecParams, ProcessEntry, starting}
use nexal.Process.Read.{is_empty}
use nexal.Process.Server.{
  Inner, Result, ok, err, after_check, ◌>>=◌, start_process, start_failed, require_initialized_for,
  reserve, split_first,
}
use nexal.Process.Server.Handshake.{is_ok}

-- The three conditions of a start.
abbrev pub may_start : Inner → ExecParams → Bool
may_start inner params =
    (is_ok (require_initialized_for inner "exec") && not (is_empty params.argv))
    && not (Map.contains_key inner.processes params.process_id)

-- The entry of `j` when `id` has just been reserved, or has not.
abbrev pub entry_after : Bool → Inner → ProcessId → ProcessId → Option ProcessEntry
entry_after true inner id j = if id === j then some starting else Map.get inner.processes j
entry_after false inner id j = Map.get inner.processes j

is_ok-split_first :
    (check : Result (Unit {0})) (argv : List String)
    → is_ok (check >>= λ _. split_first argv) ≡ (is_ok check && not (is_empty argv))
unfolding split_first
is_ok-split_first (err e) argv = refl
is_ok-split_first (ok t) [] = refl
is_ok-split_first (ok t) (a ∷ as') = refl

-- All but the table of processes is as before.
abbrev pub OnlyProcesses : Inner → Inner → Type 0
OnlyProcesses inner inner' = inner' ≡ record inner { processes = inner'.processes }

reserve_lem :
    (inner : Inner) (params : ExecParams) (j : ProcessId) (free : Bool)
    → not (Map.contains_key inner.processes params.process_id) ≡ free
    → (is_ok (reserve inner params).1 ≡ free)
      × (Map.get (reserve inner params).0.processes j ≡ entry_after free inner params.process_id j)
      × OnlyProcesses inner (reserve inner params).0
unfolding reserve
reserve_lem inner params j true e =
    ground (arith, get-insert inner.processes params.process_id j starting)
reserve_lem inner params j false e = ground arith

-- A start is accepted exactly when the handshake is over, the command is not empty and the id is
-- free; then the id is marked as starting, and otherwise no entry changes. Nothing but the table
-- of processes changes.
pub start_process-may_start :
    (inner : Inner) (params : ExecParams) (j : ProcessId)
    → (is_ok (start_process inner params).1 ≡ may_start inner params)
      × (Map.get (start_process inner params).0.processes j
          ≡ entry_after (may_start inner params) inner params.process_id j)
      × OnlyProcesses inner (start_process inner params).0
unfolding start_process after_check
start_process-may_start inner params j =
    checked (require_initialized_for inner "exec" >>= λ _. split_first params.argv) _
      (is_ok-split_first (require_initialized_for inner "exec") params.argv)
  where
    checked :
        (check : Result (String × List String)) (b : Bool)
        → is_ok check ≡ b
        → (is_ok (after_check inner params check).1
            ≡ (b && not (Map.contains_key inner.processes params.process_id)))
          × (Map.get (after_check inner params check).0.processes j
              ≡ entry_after
                  (b && not (Map.contains_key inner.processes params.process_id))
                  inner
                  params.process_id
                  j)
          × OnlyProcesses inner (after_check inner params check).0
    checked (err e) b q = rw (← q) (refl, refl, refl)
    checked (ok a) b q = rw (← q) (reserve_lem inner params j _ refl)

-- A spawn that fails gives the id back: whatever the error, the table answers as it did before
-- the start was accepted.
pub start_failed-start_process :
    (inner : Inner) (params : ExecParams) (message : String) (j : ProcessId)
    → may_start inner params ≡ true
    → Map.get (start_failed (start_process inner params).0 params.process_id message).0.processes j
      ≡ Map.get inner.processes j
unfolding start_failed Map.contains_key
start_failed-start_process inner params message j h =
    let begun = start_process-may_start inner params in
    ground (
      arith,
      (begun params.process_id).1,
      (begun j).1,
      get-remove (start_process inner params).0.processes params.process_id j,
      string_eq.beq_iff params.process_id j,
      eq_self params.process_id,
    )

-- Between the two locks of an accepted start the id is taken: no other start of it is accepted.
pub may_start-start_process :
    (inner : Inner) (params again : ExecParams)
    → may_start inner params ≡ true
    → again.process_id ≡ params.process_id
    → may_start (start_process inner params).0 again ≡ false
unfolding Map.contains_key
may_start-start_process inner params again h e =
    ground
      (arith, (start_process-may_start inner params params.process_id).1, eq_self params.process_id)
