-- ===== src/Process/Server/Handshake.antt =====
-- The two messages of the handshake, and the calls that wait for them.
use nexal.Prelude.{
  ℕ, string_eq, Bool, true, false, some, Bool-cases, List, [], ◌∷◌, ◌≡◌, refl, arith, inl, inr,
}
use nexal.Process.Types.{ProcessId, ChannelError, ExecParams, ReadParams, invalid_request}
use nexal.Process.Server.{
  Inner, Result, ok, err, new, initialize, initialized, require_initialized_for, start_process,
  exec_read, exec_write, terminate_process, Turn,
}

pub data Message : Type 0 where
  initialize_request initialized_notification : Message

unfoldable pub handshake : Inner → Message → Inner
unfolding initialize initialized
handshake inner initialize_request = (initialize inner).0
handshake inner initialized_notification = (initialized inner).0

unfoldable pub handshakes : Inner → List Message → Inner
handshakes inner [] = inner
handshakes inner (m ∷ ms) = handshakes (handshake inner m) ms

-- An `initialize` has come, and an `initialized` behind the first one.
abbrev pub has_initialize : List Message → Bool
has_initialize [] = false
has_initialize (initialize_request ∷ ms) = true
has_initialize (initialized_notification ∷ ms) = has_initialize ms

abbrev pub has_initialized : List Message → Bool
has_initialized [] = false
has_initialized (initialize_request ∷ ms) = has_initialized ms
has_initialized (initialized_notification ∷ ms) = true

abbrev pub in_order : List Message → Bool
in_order [] = false
in_order (initialize_request ∷ ms) = has_initialized ms
in_order (initialized_notification ∷ ms) = in_order ms

abbrev pub is_ok {ℓ} : {A : Type ℓ} → Result A → Bool
is_ok (ok a) = true
is_ok (err e) = false

handshakes_all :
    (ms : List Message) (inner : Inner)
    → inner.initialize_requested ≡ true
    → inner.initialized ≡ true
    → is_ok (require_initialized_for (handshakes inner ms) "exec") ≡ true
unfolding handshakes handshake require_initialized_for
handshakes_all [] inner r i = ground arith
handshakes_all (initialize_request ∷ ms) inner r i =
    handshakes_all ms (handshake inner initialize_request) refl i
handshakes_all (initialized_notification ∷ ms) inner r i =
    handshakes_all ms (handshake inner initialized_notification) (ground arith) (ground arith)

handshakes_requested :
    (ms : List Message) (inner : Inner)
    → inner.initialize_requested ≡ true
    → inner.initialized ≡ false
    → is_ok (require_initialized_for (handshakes inner ms) "exec") ≡ has_initialized ms
unfolding handshakes handshake require_initialized_for
handshakes_requested [] inner r i = ground arith
handshakes_requested (initialize_request ∷ ms) inner r i =
    handshakes_requested ms (handshake inner initialize_request) refl i
handshakes_requested (initialized_notification ∷ ms) inner r i =
    handshakes_all ms (handshake inner initialized_notification) (ground arith) (ground arith)

handshakes_fresh :
    (ms : List Message) (inner : Inner)
    → inner.initialize_requested ≡ false
    → inner.initialized ≡ false
    → is_ok (require_initialized_for (handshakes inner ms) "exec") ≡ in_order ms
unfolding handshakes handshake require_initialized_for
handshakes_fresh [] inner r i = ground arith
handshakes_fresh (initialize_request ∷ ms) inner r i =
    handshakes_requested ms (handshake inner initialize_request) refl i
handshakes_fresh (initialized_notification ∷ ms) inner r i =
    handshakes_fresh ms (handshake inner initialized_notification) (ground arith) (ground arith)

-- After any messages, the calls are open exactly when an `initialize` has come and an
-- `initialized` behind it.
pub handshakes-in_order :
    (ms : List Message) → is_ok (require_initialized_for (handshakes new ms) "exec") ≡ in_order ms
handshakes-in_order ms = handshakes_fresh ms new refl refl

-- While the handshake is not over, each call on processes answers with one and the same
-- `invalid_request`, and neither the table nor a child is touched.
pub calls_gated :
    (inner : Inner) (params : ExecParams) (read : ReadParams) (now : ℕ) (turns : List Turn)
    (id : ProcessId) (receiver_alive : Bool)
    → is_ok (require_initialized_for inner "exec") ≡ false
    → (e : ChannelError) × (e.kind ≡ invalid_request)
      × (start_process inner params ≡ (inner, err e))
      × (exec_read inner read now turns ≡ some (err e))
      × (exec_write inner id receiver_alive ≡ err e)
      × (terminate_process inner id ≡ (inner, err e, []))
unfolding start_process exec_read exec_write terminate_process require_initialized_for
calls_gated inner params read now turns id receiver_alive shut =
    elim (Bool-cases inner.initialize_requested) [
      | inl r ↦ elim (Bool-cases inner.initialized) [
        | inl i ↦ cc (rw (r, i) at shut)
        | inr i ↦ rw (r, i) (_, refl, refl, refl, refl, refl)
      ]
      | inr r ↦ rw r (_, refl, refl, refl, refl, refl)
    ]
