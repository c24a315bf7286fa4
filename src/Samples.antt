-- ===== src/Samples.antt =====
-- Concrete inputs on which the theorems about the program apply, one module for each part.
mod Backend
mod Lifecycle
mod Recovery
mod Dag
mod Validation
mod Delivery
mod Reading
mod Guards
mod Access
mod Webhooks
mod Streams
mod Workflows
