-- ===== src/State.antt =====
-- controller/state.py, the migration state and its store.
pub mod Phase
pub mod Record
pub mod Validate
pub mod Transition
pub mod Payload
pub mod Storage
