-- ===== src/Auth.antt =====
-- auth/src/orxtra/auth: the store of consumers and credentials, the verifiers of the credential
-- types and the authenticator that picks one.
pub mod Backend
pub mod Verifiers
pub mod Authenticator
pub mod Soundness
pub mod Decisions
pub mod Disabled
pub mod Audit
