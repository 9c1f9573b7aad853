-- ===== src/Tests.antt =====
-- Runs of the model on concrete worlds, and the theorems at them.
pub mod Worlds
pub mod Moves
pub mod Records
pub mod Lookups
pub mod Arrays
pub mod Pointers
pub mod Handles
pub mod Kernels
pub mod Uses
pub mod Thin
pub mod Elements
pub mod Nested
pub mod Programs
pub mod Runs
