-- ===== src/ManagedPtr.antt =====
-- src/chai/managed_ptr.hpp, the host's code: a pair of pointers to an object on the host and to one on
-- the device, with a record that the copies share.
pub mod Host
pub mod Handle
pub mod Free
pub mod Make
pub mod Unpack
pub mod Lifetime
