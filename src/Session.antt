-- ===== src/Session.antt =====
-- session/src/orxtra/session: the price of tokens and the turns of a session.
pub mod Pricing
pub mod Turns
