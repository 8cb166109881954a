-- ===== src/Process/Tasks/Publishing.antt =====
-- A task that is not interrupted does to the table and to the outlets what its sections say.
use nexal.Prelude.{
  ℕ, string_eq, true, Option, none, some, List, [], ◌∷◌, ◌++◌, ◌≡◌, refl, sym, ap, ◌∙◌, append-nil,
  append_assoc, arith,
}
use nexal.Prelude.Int.{ℤ}
use nexal.Prelude.Map
use nexal.Prelude.Map.{get-insert_self}
use nexal.Process.Types.{ProcessId, ExecOutputStream, RunningProcess, ProcessEvent, running}
use nexal.Process.Lifecycle.{
  Section, chunk, stream_finished, exit, try_close, section, run_sections, cons_some, emit_closed,
  finish_stream, stream_chunk, note_exit,
}
use nexal.Process.Server.{Inner}
use nexal.Process.Tasks.{
  Outlets, on_running, maybe_emit_closed, finish_output_stream, stream_output, watch_exit,
  publish_closed, publish, exit_code_of,
}

abbrev pub stream_sections : ExecOutputStream → List (List ℕ) → List Section
stream_sections stream [] = stream_finished ∷ try_close ∷ []
stream_sections stream (bytes ∷ more) = chunk stream bytes ∷ stream_sections stream more

-- The entry of `id` and both outlets show the sections `ss` of the process `p`.
pub record Shows (id : ProcessId) (p : RunningProcess) (ss : List Section) (o : Outlets)
    (inner' : Inner) (o' : Outlets) : Type 0 where
  pub entry : Map.get inner'.processes id ≡ some (running (run_sections id ss p).0)
  pub broadcast_all : o'.process_events ≡ o.process_events ++ (run_sections id ss p).1
  pub notified_all : o'.notifications ≡ o.notifications ++ (run_sections id ss p).1

on_running_lem :
    (inner : Inner) (id : ProcessId) (f : RunningProcess → RunningProcess × Option ProcessEvent)
    (p : RunningProcess)
    → Map.get inner.processes id ≡ some (running p)
    → on_running inner id f
      ≡ (record inner { processes = Map.insert inner.processes id (running (f p).0) }, (f p).1)
unfolding on_running
on_running_lem inner id f p e = rw (e, on_running)

publish_closed-append :
    (o : Outlets) (event : Option ProcessEvent)
    → o.notifications_open ≡ true
    → ((publish_closed o event).process_events ≡ o.process_events ++ cons_some event [])
      × ((publish_closed o event).notifications ≡ o.notifications ++ cons_some event [])
unfolding publish_closed
publish_closed-append o none h =
    (sym (append-nil o.process_events), sym (append-nil o.notifications))
publish_closed-append o (some event) h = ground arith

maybe_emit_closed-Shows :
    (inner : Inner) (o : Outlets) (id : ProcessId) (p : RunningProcess)
    → o.notifications_open ≡ true
    → Map.get inner.processes id ≡ some (running p)
    → Shows id p
        (try_close ∷ [])
        o
        (maybe_emit_closed (inner, o) id).0
        (maybe_emit_closed (inner, o) id).1
unfolding maybe_emit_closed
maybe_emit_closed-Shows inner o id p open' e =
    let out = publish_closed-append o (emit_closed id p).1 open' in
    rw (on_running_lem inner id (emit_closed id) p e) (
      unfold run_sections section in
      record {
        entry = get-insert_self inner.processes id _;
        broadcast_all = out.0;
        notified_all = out.1;
      })

finish_output_stream-Shows :
    (inner : Inner) (o : Outlets) (id : ProcessId) (p : RunningProcess)
    → o.notifications_open ≡ true
    → Map.get inner.processes id ≡ some (running p)
    → Shows id p
        (stream_finished ∷ try_close ∷ [])
        o
        (finish_output_stream (inner, o) id).0
        (finish_output_stream (inner, o) id).1
unfolding finish_output_stream
finish_output_stream-Shows inner o id p open' e =
    let s =
      maybe_emit_closed-Shows
        (record inner { processes = Map.insert inner.processes id (running (finish_stream p).0) }) o
        id (finish_stream p).0 open' (get-insert_self inner.processes id _) in
    rw (on_running_lem inner id finish_stream p e) (
      unfold run_sections section in
      record { entry = s.entry; broadcast_all = s.broadcast_all; notified_all = s.notified_all })

publish-append :
    (o : Outlets) (event : ProcessEvent)
    → o.notifications_open ≡ true
    → ((publish o event).process_events ≡ o.process_events ++ event ∷ [])
      × ((publish o event).notifications ≡ o.notifications ++ event ∷ [])
      × ((publish o event).notifications_open ≡ true)
unfolding publish
publish-append o event h = ground arith

Shows-cons :
    (id : ProcessId) (p : RunningProcess) (s : Section) (ss : List Section) (o : Outlets)
    (event : ProcessEvent) (inner' : Inner) (o' : Outlets)
    → o.notifications_open ≡ true
    → (section id s p).1 ≡ some event
    → Shows id (section id s p).0 ss (publish o event) inner' o'
    → Shows id p (s ∷ ss) o inner' o'
unfolding run_sections
Shows-cons id p s ss o event inner' o' open' e h =
    let out = publish-append o event open' in
    let rest = (run_sections id ss (section id s p).0).1 in
    record {
      entry = h.entry;
      broadcast_all = rw e (
          h.broadcast_all
          ∙ ap (λ l. l ++ rest) out.0
          ∙ append_assoc o.process_events (event ∷ []) rest);
      notified_all = rw e (
          h.notified_all
          ∙ ap (λ l. l ++ rest) out.1
          ∙ append_assoc o.notifications (event ∷ []) rest);
    }

-- While notifications go out, `stream_output` logs its chunks in order, then finishes the stream
-- and tries to close the process; every event goes to both outlets, in the order of its number.
pub stream_output-Shows :
    (id : ProcessId) (stream : ExecOutputStream) (chunks : List (List ℕ)) (inner : Inner)
    (o : Outlets) (p : RunningProcess)
    → o.notifications_open ≡ true
    → Map.get inner.processes id ≡ some (running p)
    → Shows id p
        (stream_sections stream chunks)
        o
        (stream_output id stream chunks (inner, o)).0
        (stream_output id stream chunks (inner, o)).1
unfolding stream_output stream_chunk section
stream_output-Shows id stream [] inner o p open' e = finish_output_stream-Shows inner o id p open' e
stream_output-Shows id stream (bytes ∷ more) inner o p open' e =
    let event = ProcessEvent.output_delta id p.next_seq stream bytes in
    let p' = (stream_chunk id stream bytes p).0 in
    let inner' : Inner = record inner { processes = Map.insert inner.processes id (running p') } in
    let rest =
      stream_output-Shows id stream more inner' (publish o event) p'
        (publish-append o event open').2 (get-insert_self inner.processes id _) in
    rw (on_running_lem inner id (stream_chunk id stream bytes) p e) (
      simp open' (
        Shows-cons id p (chunk stream bytes) (stream_sections stream more) o event _ _ open' refl
          rest))

-- While notifications go out, `watch_exit` logs the exit with the code that it received or -1, then
-- tries to close the process; each event goes to both outlets, and the process is to be reaped with
-- this code.
pub watch_exit-Shows :
    (id : ProcessId) (exit_rx : Option ℤ) (code : ℤ) (inner : Inner) (o : Outlets)
    (p : RunningProcess)
    → o.notifications_open ≡ true
    → Map.get inner.processes id ≡ some (running p)
    → code ≡ exit_code_of exit_rx
    → Shows id p
        (exit code ∷ try_close ∷ [])
        o
        (watch_exit id exit_rx (inner, o)).0
        (watch_exit id exit_rx (inner, o)).1
      × ((watch_exit id exit_rx (inner, o)).2 ≡ some code)
unfolding watch_exit note_exit
watch_exit-Shows id exit_rx code inner o p open' e c =
    let event = ProcessEvent.exited id p.next_seq code in
    let p' = (note_exit id code p).0 in
    let inner' : Inner = record inner { processes = Map.insert inner.processes id (running p') } in
    let rest =
      maybe_emit_closed-Shows inner' (publish o event) id p' (publish-append o event open').2
        (get-insert_self inner.processes id _) in
    rw (← c, on_running_lem inner id (note_exit id code) p e)
      (simp open' (
        Shows-cons id p (exit code) (try_close ∷ []) o event _ _ open' (unfold section in refl)
            (unfold section in rest),
        refl,
      ))
