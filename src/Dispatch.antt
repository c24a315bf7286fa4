-- ===== src/Dispatch.antt =====
-- dispatch/src/orxtra/dispatch: sources, subscriptions and the delivery of events to actions.
pub mod Backend
pub mod Matching
pub mod Polling
pub mod Batches
pub mod Worker
