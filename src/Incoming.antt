-- ===== src/Incoming.antt =====
-- incoming/src/orxtra/incoming: webhooks of external sources.
pub mod Extraction
pub mod Receiver
pub mod Signed
pub mod Authentic
