-- ===== src/Process/Tasks/Validity.antt =====
-- Every process in the table is well formed, whatever the clients and the tasks do.
use nexal.Prelude.{
  ℕ, ◌+◌, ◌≤◌, ◌<◌, string_eq, Bool, true, false, Option, none, some, List, [], ◌∷◌, ◌≡◌, refl,
  subst, is_some, arith, if◌then◌else◌, u64_mod, length, inl, inr, Bool-cases, ◌===◌,
}
use nexal.Prelude.Map
use nexal.Prelude.Map.{Map, get-remove, get-insert}
use nexal.Process.Types.{ProcessId, RunningProcess, ProcessEntry, ExecParams, starting, running}
use nexal.Process.Output.Bounds.{IsValid}
use nexal.Process.Lifecycle.{Section, section, spawned}
use nexal.Process.Lifecycle.Log.{
  IsSmall, section-IsValid, section-next_seq, length-cons_some-le, spawned-IsValid,
}
use nexal.Process.Server
use nexal.Pty.Handle.{Effect}
use nexal.Process.Server.{Inner, new}
use nexal.Process.Server.Start.{may_start, entry_after, start_process-may_start}
use nexal.Process.Tasks.{
  Action, initialize, initialized, start, start_failed, start_spawned, task, reap, terminate,
  shutdown, step, run, on_running, remove_exited,
}

abbrev pub Table : Type 0
Table = Map ProcessId ProcessEntry

abbrev EntryValid : ℕ → Option ProcessEntry → Type 0
EntryValid n none = Unit {0}
EntryValid n (some starting) = Unit {0}
EntryValid n (some (running p)) = IsValid p × (p.next_seq ≤ n)

record TableValid (n : ℕ) (t : Table) : Type 0 where
  at : (id : ProcessId) → EntryValid n (Map.get t id)

EntryValid-mono : (n : ℕ) (o : Option ProcessEntry) → EntryValid n o → EntryValid (n + 1) o
EntryValid-mono n none h = tt
EntryValid-mono n (some starting) h = tt
EntryValid-mono n (some (running p)) h = (h.0, omega (arith, h.1))

TableValid-mono : (n : ℕ) (t : Table) → TableValid n t → TableValid (n + 1) t
TableValid-mono n t v = record { at = λ id. EntryValid-mono n (Map.get t id) (v.at id) }

EntryValid-if :
    (n : ℕ) (b : Bool) (x y : Option ProcessEntry)
    → EntryValid n x
    → EntryValid n y
    → EntryValid n (if b then x else y)
EntryValid-if n true x y hx hy = hx
EntryValid-if n false x y hx hy = hy

TableValid-insert :
    (n : ℕ) (t : Table) (id : ProcessId) (e : ProcessEntry)
    → EntryValid n (some e)
    → TableValid n t
    → TableValid n (Map.insert t id e)
TableValid-insert n t id e he v = record {
  at =
      λ j. rw (get-insert t id j e) (EntryValid-if n (id === j) (some e) (Map.get t j) he (v.at j));
}

TableValid-remove :
    (n : ℕ) (t : Table) (id : ProcessId) → TableValid n t → TableValid n (Map.remove t id)
TableValid-remove n t id v = record {
  at = λ j. rw (get-remove t id j) (EntryValid-if n (id === j) none (Map.get t j) tt (v.at j));
}

TableValid-if :
    (n : ℕ) (b : Bool) (s t : Inner)
    → TableValid n s.processes
    → TableValid n t.processes
    → TableValid n (if b then s else t).processes
TableValid-if n true s t hs ht = hs
TableValid-if n false s t hs ht = ht

abbrev pub IsSmallAction : Action → Type 0
IsSmallAction (task id s) = IsSmall s
IsSmallAction initialize = Unit {0}
IsSmallAction initialized = Unit {0}
IsSmallAction (start params) = Unit {0}
IsSmallAction (start_failed id m) = Unit {0}
IsSmallAction (start_spawned params h) = Unit {0}
IsSmallAction (reap id c) = Unit {0}
IsSmallAction (terminate id) = Unit {0}
IsSmallAction shutdown = Unit {0}

abbrev pub AllSmallActions : List Action → Type 0
AllSmallActions [] = Unit {0}
AllSmallActions (a ∷ as') = IsSmallAction a × AllSmallActions as'

module _ (n : ℕ) (positive : 1 ≤ n) (room : n + 1 < u64_mod) (inner : Inner)
    (v : TableValid n inner.processes) where
  on_running-valid :
      (id : ProcessId) (s : Section) (o : Option ProcessEntry)
      → IsSmall s
      → Map.get inner.processes id ≡ o
      → TableValid (n + 1) (on_running inner id (section id s)).0.processes
  unfolding on_running
  on_running-valid id s none small e = rw (e, on_running) (TableValid-mono n _ v)
  on_running-valid id s (some starting) small e = rw (e, on_running) (TableValid-mono n _ v)
  on_running-valid id s (some (running p)) small e =
      let old : EntryValid n (some (running p)) = rw e at (v.at id) in
      let next = (section-next_seq id s p (omega (arith, old.1))).1 in
      rw (e, on_running)
        (TableValid-insert (n + 1) inner.processes id (running (section id s p).0)
          (
            section-IsValid id s p small (omega (arith, old.1)) old.0,
            omega (arith, next, old.1, length-cons_some-le (section id s p).1),
          )
          (TableValid-mono n _ v))

  start-valid :
      (params : ExecParams) (b : Bool) (j : ProcessId)
      → EntryValid n (entry_after b inner params.process_id j)
  start-valid params true j =
      EntryValid-if n (params.process_id === j) (some starting) (Map.get inner.processes j) tt
        (v.at j)
  start-valid params false j = v.at j

  terminate_entry-valid :
      (id : ProcessId) (o : Option ProcessEntry)
      → EntryValid n o
      → TableValid n (Server.terminate_entry inner id o).0.processes
  unfolding Server.terminate_entry
  terminate_entry-valid id none old = v
  terminate_entry-valid id (some starting) old = v
  terminate_entry-valid id (some (running p)) old = elim (Bool-cases (is_some p.exit_code)) [
    | inl e ↦ rw e v
    | inr e ↦ rw e (
        TableValid-insert n inner.processes id _
          (
            record {
              counted = old.0.counted;
              bounded = old.0.bounded;
              ordered = old.0.ordered;
              started = old.0.started;
              in_range = old.0.in_range;
              closing = old.0.closing;
            },
            old.1,
          )
          v)
  ]

  answer_if-valid :
      (check : Server.Result (Unit {0})) (done : Inner × Bool × List Effect)
      → TableValid n done.0.processes
      → TableValid n (Server.answer_if check inner done).0.processes
  unfolding Server.answer_if
  answer_if-valid (Server.err e) done h = v
  answer_if-valid (Server.ok _) done h = h

  terminate-valid : (id : ProcessId) → TableValid n (Server.terminate_process inner id).0.processes
  unfolding Server.terminate_process
  terminate-valid id =
      answer_if-valid (Server.require_initialized_for inner "exec") _
        (terminate_entry-valid id (Map.get inner.processes id) (v.at id))

  processes-initialized : (Server.initialized inner).0.processes ≡ inner.processes
  unfolding Server.initialized
  processes-initialized = ground arith

  step-valid : (a : Action) → IsSmallAction a → TableValid (n + 1) (step inner a).processes
  unfolding step Server.start_failed remove_exited Server.start_spawned Server.initialize
      Server.shutdown Map.get
  step-valid initialize small = TableValid-mono n _ v
  step-valid initialized small = rw processes-initialized (TableValid-mono n _ v)
  step-valid (start params) small = TableValid-mono n _ (record {
    at = λ j.
        rw (start_process-may_start inner params j).1
          (start-valid params (may_start inner params) j);
  })
  step-valid (start_failed id m) small = TableValid-mono n _ (
      TableValid-if n _ (record inner { processes = Map.remove inner.processes id }) inner
        (TableValid-remove n _ id v) v)
  step-valid (start_spawned params h) small = TableValid-mono n _ (
      TableValid-insert n inner.processes params.process_id _
        (unfold spawned in (spawned-IsValid h params.tty, positive)) v)
  step-valid (task id s) small = on_running-valid id s _ small refl
  step-valid (reap id c) small = TableValid-mono n _ (
      TableValid-if n _ (record inner { processes = Map.remove inner.processes id }) inner
        (TableValid-remove n _ id v) v)
  step-valid (terminate id) small = TableValid-mono n _ (terminate-valid id)
  step-valid shutdown small = record { at = λ j. tt }

run-TableValid :
    (as' : List Action) (inner : Inner) (n : ℕ)
    → AllSmallActions as'
    → 1 ≤ n
    → n + length as' < u64_mod
    → TableValid n inner.processes
    → TableValid (n + length as') (run inner as').processes
unfolding run
run-TableValid [] inner n small p room v = subst (λ k. TableValid k inner.processes) (omega arith) v
run-TableValid (a ∷ as') inner n small p room v =
    subst (λ k. TableValid k (run (step inner a) as').processes) (omega arith)
      (run-TableValid as' (step inner a) (n + 1) small.1 (omega arith) (omega arith)
        (step-valid n p (omega arith) inner v a small.0))

-- From the start of the service, after any actions in any order, every process in the table is
-- well formed, as long as the actions are fewer than the sequence numbers and no chunk is near
-- the size of the address space.
pub run-IsValid :
    (as' : List Action) (id : ProcessId) (p : RunningProcess)
    → AllSmallActions as'
    → 1 + length as' < u64_mod
    → Map.get (run new as').processes id ≡ some (running p)
    → IsValid p
unfolding Map.get
run-IsValid as' id p small room e =
    let v = (run-TableValid as' new 1 small (omega arith) room (record { at = λ j. tt })).at id in
    let w : EntryValid (1 + length as') (some (running p)) = rw e at v in w.0
