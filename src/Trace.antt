-- ===== src/Trace.antt =====
-- trace/src/orxtra/trace: the state machines of tasks and runs, and the in-memory storage backend.
pub mod Transitions
pub mod Rows
pub mod Store
pub mod Tasks
pub mod Events
pub mod Runs
pub mod Overseer
pub mod Inbox
pub mod Recovery
pub mod Reader
pub mod Ops
