-- ===== src/Pty.antt =====
-- crates/utils/pty: the handle of a spawned process. Spawning itself, the reader, writer and wait
-- tasks and the terminal's ioctl are the operating system's and the pty library's.
pub mod Handle
