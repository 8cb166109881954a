-- ===== src/Transport/Handle.antt =====
-- crates/utils/transport/src/transport.rs: `Transport`, the handle that sends commands to the driver.
pub mod Closing
use nexal.Prelude.{
  ℕ, Bool, true, false, List, [], ◌∷◌, ◌++◌, ◌≡◌, refl, if◌then◌else◌, arith, append-nil,
}

pub data DriverCmd : Type 0 where
  send : List ℕ → DriverCmd
  start_heartbeat stop_heartbeat close : DriverCmd

-- `queue` is what `cmd_tx` has taken, in order.
pub record Transport : Type 0 where
  pub queue : List DriverCmd
  pub closed : Bool

abbrev push : Transport → DriverCmd → Transport
push t cmd = record t { queue = t.queue ++ cmd ∷ [] }

-- The calls of the handle, and the driver's own store to `closed`
pub data Call : Type 0 where
  sending : List ℕ → Call
  closing starting_heartbeat stopping_heartbeat ended : Call

unfoldable pub call : Transport → Call → Transport
call t (sending frame) = if t.closed then t else push t (send frame)
call t closing = if t.closed then t else record (push t close) { closed = true }
call t starting_heartbeat = push t start_heartbeat
call t stopping_heartbeat = push t stop_heartbeat
call t ended = record t { closed = true }
