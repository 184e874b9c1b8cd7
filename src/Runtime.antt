-- ===== src/Runtime.antt =====
-- src/runtime.rs: the supervised upstream connections: their commands, frames and backoff.
pub mod Commands
pub mod Frames
pub mod Handling
pub mod Supervisor
