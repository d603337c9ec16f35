-- ===== src/Tests.antt =====
-- A small machine, and the runs and instances on it that show the conditions of the theorems can
-- hold.
pub mod Machine
pub mod Kernels
pub mod Layout
pub mod Sync
pub mod Guards
pub mod Links
pub mod Texts
pub mod Services
pub mod Wakeup
pub mod Pools
pub mod Deadlines
pub mod Endings
pub mod Values
