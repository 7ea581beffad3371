-- ===== src/Examples.antt =====
-- Concrete runs: the theorems at a small disk, at a state before its cutover, and at its commands.
pub mod Fixtures
pub mod Deltas
mod Appliance
mod Exports
mod Newer
mod Volumes
mod HandOver
mod States
pub mod Activation
pub mod Commands
mod Rollback
mod Syncs
mod Cutovers
mod Closed
mod Lines
pub mod Seeding
mod Seeded
