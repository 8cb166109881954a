-- ===== src/Process.antt =====
-- crates/nexal-agent/src/process: the service that runs processes for the client.
pub mod Types
pub mod Output
pub mod Read
pub mod Lifecycle
pub mod Server
pub mod Tasks
mod Examples
