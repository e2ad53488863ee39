-- ===== src/Sim.antt =====
-- desktop/crates/sim/src: the simulated storage and store, and the loop that drives the core.
pub mod Disk
pub mod Storage
pub mod Store
pub mod World
pub mod Run
pub mod Agree
pub mod Durable
pub mod Refines
pub mod Handset
pub mod Phone
