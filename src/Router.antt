-- ===== src/Router.antt =====
-- src/router.rs: the central coordinator.
pub mod Choose
pub mod State
pub mod Batch
pub mod Submit
pub mod Run
pub mod Settings
pub mod Adapt
pub mod CpuPool
pub mod World
