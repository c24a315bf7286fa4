-- ===== src/WriteSafety.antt =====
-- write-safety/src/orxtra/write_safety: the guards of file writes.
pub mod Stale
pub mod Replay
