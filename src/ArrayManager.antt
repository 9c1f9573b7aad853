-- ===== src/ArrayManager.antt =====
-- src/chai/ArrayManager.hpp, ArrayManager.inl and ArrayManager.cpp: the operations, and in the
-- children named for a property the proofs about them.
pub mod Callbacks
pub mod Settings
pub mod Touch
pub mod Register
pub mod Move
pub mod Free
pub mod Create
pub mod Reallocate
pub mod Query
pub mod Consistent
pub mod Start
pub mod Evict
pub mod Elements
