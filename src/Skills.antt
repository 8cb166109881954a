-- ===== src/Skills.antt =====
-- crates/nexal-agent/src/fs/skills.rs: the file system that shows the skills of the gateway.
pub mod Paths
pub mod Tree
pub mod Reading
pub mod Service
mod Examples
