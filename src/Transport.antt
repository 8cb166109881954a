-- ===== src/Transport.antt =====
-- crates/utils/transport/src/transport.rs: binary frames over a WebSocket, with a heartbeat and, on
-- the side that dials, reconnection.
pub mod Frames
pub mod Handle
pub mod Driver
pub mod Client
pub mod MessageChannel
mod Examples
