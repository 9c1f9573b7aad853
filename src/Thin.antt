-- ===== src/Thin.antt =====
-- src/chai/ManagedArray_thin.inl: the ManagedArray of builds with CHAI_DISABLE_RM, which has no array
-- manager: a handle of memory of the C library, or of the device's runtime in builds with UM.
pub mod Heap
pub mod Device
pub mod Handle
pub mod Array
