-- ===== src/Transport/Handle/Closing.antt =====
-- crates/utils/transport/src/transport.rs: what the handle `Transport` puts behind a `Close`.
use nexal.Prelude.{Bool, true, false, List, [], ◌∷◌, ◌++◌, ◌≡◌, refl, arith, Bool-cases, inl, inr}
use nexal.Transport.Handle.{
  DriverCmd, send, start_heartbeat, stop_heartbeat, close, Transport, Call, sending, closing,
  starting_heartbeat, stopping_heartbeat, ended, call,
}

abbrev pub is_heartbeat : DriverCmd → Bool
is_heartbeat start_heartbeat = true
is_heartbeat stop_heartbeat = true
is_heartbeat (send frame) = false
is_heartbeat close = false

abbrev pub OnlyHeartbeats : List DriverCmd → Type 0
OnlyHeartbeats [] = Unit {0}
OnlyHeartbeats (c ∷ cs) = (is_heartbeat c ≡ true) × OnlyHeartbeats cs

-- Neither a frame nor a second `Close` comes behind a `Close`.
abbrev pub ClosesLast : List DriverCmd → Type 0
ClosesLast [] = Unit {0}
ClosesLast (close ∷ cs) = OnlyHeartbeats cs
ClosesLast (send frame ∷ cs) = ClosesLast cs
ClosesLast (start_heartbeat ∷ cs) = ClosesLast cs
ClosesLast (stop_heartbeat ∷ cs) = ClosesLast cs

abbrev NoClose : List DriverCmd → Type 0
NoClose [] = Unit {0}
NoClose (close ∷ cs) = ⊥
NoClose (send frame ∷ cs) = NoClose cs
NoClose (start_heartbeat ∷ cs) = NoClose cs
NoClose (stop_heartbeat ∷ cs) = NoClose cs

OnlyHeartbeats-push :
    (cs : List DriverCmd) (c : DriverCmd)
    → is_heartbeat c ≡ true
    → OnlyHeartbeats cs
    → OnlyHeartbeats (cs ++ c ∷ [])
OnlyHeartbeats-push [] c h k = (h, tt)
OnlyHeartbeats-push (d ∷ cs) c h (e, k) = (e, OnlyHeartbeats-push cs c h k)

heartbeat-ClosesLast :
    (cs : List DriverCmd) (c : DriverCmd)
    → is_heartbeat c ≡ true
    → ClosesLast cs
    → ClosesLast (cs ++ c ∷ [])
heartbeat-ClosesLast [] start_heartbeat h k = tt
heartbeat-ClosesLast [] stop_heartbeat h k = tt
heartbeat-ClosesLast [] (send frame) h k = tt
heartbeat-ClosesLast [] close h k = tt
heartbeat-ClosesLast (close ∷ cs) c h k = OnlyHeartbeats-push cs c h k
heartbeat-ClosesLast (send frame ∷ cs) c h k = heartbeat-ClosesLast cs c h k
heartbeat-ClosesLast (start_heartbeat ∷ cs) c h k = heartbeat-ClosesLast cs c h k
heartbeat-ClosesLast (stop_heartbeat ∷ cs) c h k = heartbeat-ClosesLast cs c h k

first-ClosesLast : (cs : List DriverCmd) (c : DriverCmd) → NoClose cs → ClosesLast (cs ++ c ∷ [])
first-ClosesLast [] (send frame) h = tt
first-ClosesLast [] start_heartbeat h = tt
first-ClosesLast [] stop_heartbeat h = tt
first-ClosesLast [] close h = tt
first-ClosesLast (close ∷ cs) c h = elim h [ ]
first-ClosesLast (send frame ∷ cs) c h = first-ClosesLast cs c h
first-ClosesLast (start_heartbeat ∷ cs) c h = first-ClosesLast cs c h
first-ClosesLast (stop_heartbeat ∷ cs) c h = first-ClosesLast cs c h

abbrev is_close : DriverCmd → Bool
is_close close = true
is_close (send frame) = false
is_close start_heartbeat = false
is_close stop_heartbeat = false

NoClose-push :
    (cs : List DriverCmd) (c : DriverCmd) → is_close c ≡ false → NoClose cs → NoClose (cs ++ c ∷ [])
NoClose-push [] (send frame) h k = tt
NoClose-push [] start_heartbeat h k = tt
NoClose-push [] stop_heartbeat h k = tt
NoClose-push [] close h k = ground (arith, h)
NoClose-push (close ∷ cs) c h k = k
NoClose-push (send frame ∷ cs) c h k = NoClose-push cs c h k
NoClose-push (start_heartbeat ∷ cs) c h k = NoClose-push cs c h k
NoClose-push (stop_heartbeat ∷ cs) c h k = NoClose-push cs c h k

record IsClosing (t : Transport) : Type 0 where
  ordered : ClosesLast t.queue
  open' : t.closed ≡ false → NoClose t.queue

call-IsClosing : (t : Transport) (c : Call) → IsClosing t → IsClosing (call t c)
unfolding call
call-IsClosing t (sending frame) i = elim (Bool-cases t.closed) [
  | inl shut ↦ simp shut i
  | inr on ↦ simp on (record {
    ordered = first-ClosesLast t.queue (send frame) (i.open' on);
    open' = λ h. NoClose-push t.queue (send frame) refl (i.open' on);
  })
]
call-IsClosing t closing i = elim (Bool-cases t.closed) [
  | inl shut ↦ simp shut i
  | inr on ↦ simp on (record {
    ordered = first-ClosesLast t.queue close (i.open' on);
    open' = λ h. ground (arith, h);
  })
]
call-IsClosing t starting_heartbeat i = record {
  ordered = heartbeat-ClosesLast t.queue start_heartbeat refl i.ordered;
  open' = λ h. NoClose-push t.queue start_heartbeat refl (i.open' h);
}
call-IsClosing t stopping_heartbeat i = record {
  ordered = heartbeat-ClosesLast t.queue stop_heartbeat refl i.ordered;
  open' = λ h. NoClose-push t.queue stop_heartbeat refl (i.open' h);
}
call-IsClosing t ended i = record { ordered = i.ordered; open' = λ h. ground (arith, h) }

-- The calls, the newest first
unfoldable pub calls : List Call → Transport
unfolding call
calls [] = record { queue = []; closed = false }
calls (c ∷ cs) = call (calls cs) c

calls-IsClosing : (cs : List Call) → IsClosing (calls cs)
unfolding calls
calls-IsClosing [] = record { ordered = tt; open' = λ h. tt }
calls-IsClosing (c ∷ cs) = call-IsClosing (calls cs) c (calls-IsClosing cs)

-- Whatever the holders of the handle call, one call after the other, and whenever the driver ends, at most one `Close` is
-- queued, and no frame behind it.
pub calls-ClosesLast : (cs : List Call) → ClosesLast (calls cs).queue
calls-ClosesLast cs = (calls-IsClosing cs).ordered
