-- ===== src/Wasm.antt =====
-- The browser backend under src/backends/wasm: candidates, the offer poller, the registered groups
-- and the managed session, as one event loop.
pub mod Module
pub mod Candidate
pub mod Poller
pub mod Registration
pub mod Session
pub mod Page
mod Tests
