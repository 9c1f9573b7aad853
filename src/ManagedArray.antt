-- ===== src/ManagedArray.antt =====
-- src/chai/ManagedArray.hpp and ManagedArray.inl, the host's code: the handle that a program holds,
-- for element types that are no CHAICopyable.
pub mod Handle
pub mod Allocate
pub mod Move
pub mod Access
pub mod Make
pub mod Slices
pub mod Elements
pub mod Nested
