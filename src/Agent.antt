-- ===== src/Agent.antt =====
-- crates/nexal-agent: the agent's end of the channel to the gateway.
pub mod Channel
mod Examples
