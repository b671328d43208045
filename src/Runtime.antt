-- ===== src/Runtime.antt =====
-- src/runtime: the session, its transaction engine, the managed streams and the publisher.
pub mod Backend
pub mod Generation
pub mod Transaction
pub mod Paths
pub mod Stream
pub mod Session
pub mod Publisher
mod Samples
mod Tests
