-- ===== src/Lib.antt =====
-- CHAI: arrays whose data follow the execution space, kept coherent by one ArrayManager.
--
-- The program. A ManagedArray is a handle: a pointer that is valid in the current execution space,
-- and a PointerRecord with a pointer for each space. Copying a handle, which a kernel's capture does,
-- asks the ArrayManager to move the data: it allocates where there is no pointer, copies from the
-- space where the record was last touched, and keeps a map from pointers to records, with Umpire for
-- the memory. `forall` and the RAJA plugin set the execution space round a capture. A managed_ptr
-- holds an object for the host and one for the device, and tells a callback of moves and frees.
--
-- The files, by the code they are about:
--   Base            names that every module shares, and Boolean tests on the native numbers
--   Space           src/chai/ExecutionSpaces.hpp, src/chai/config.hpp.in: the spaces of a build. A
--                   build is a Config, and code under a switch of the preprocessor tests it
--   Umpire          the resource manager and the map, as a parameter: operations in Env, laws in
--                   ManagerLaws, ReleaseLaws, MapLaws and ListingLaws; Umpire.Concrete has an
--                   instance that runs and meets them
--   World           src/chai/PointerRecord.hpp, src/chai/Types.hpp, src/chai/ArrayManager.hpp (members)
--   ArrayManager    src/chai/ArrayManager.cpp, src/chai/ArrayManager.inl
--     Start         the constructor
--     Callbacks     callback, setGlobalUserCallback, enableCallbacks, disableCallbacks
--     Settings      setExecutionSpace, syncIfNeeded, the default space and the allocators
--     Touch         registerTouch, resetTouch
--     Register      registerPointer, deregisterPointer, frontOfAllocation
--     Move          allocate, both overloads of move
--     Free          free, of every space or (Single) of one
--     Evict         evict
--     Create        makeManaged, deepCopyRecord
--     Reallocate    reallocate
--     Query         getPointerRecord, getSize, getTotalSize, reportLeaks and the other lookups
--     Consistent    the invariant that ties the map, the records and Umpire together: Placed, Dropped,
--                   Shared and Removed say which changes keep it, and Makes, Moves, Exchanged,
--                   Reallocates, Singles and Ends that the operations make such changes
--   ManagedArray    src/chai/ManagedArray.hpp, src/chai/ManagedArray.inl
--     Handle        the members, comparisons and assignments, operator[], slice
--     Allocate      allocate, reallocate, free, reset, registerTouch
--     Move          move, the copy constructor, shallowCopy
--     Access        data, cdata, getPointer
--     Elements      pick, set, modify, incr and decr; ArrayManager.Elements has pick and set of the array
--                   manager
--     Nested        arrays of ManagedArrays: initInner, moveInnerImpl, and the allocate, reallocate and
--                   move that call them
--     Make          the other constructors, makeManagedArray, deepCopy, setUserCallback
--   ManagedPtr      src/chai/managed_ptr.hpp
--     Host          managed_ptr_record, and the state round it
--     Handle        the constructors, the accessors, move, set_callback, the comparisons
--     Free          free
--     Lifetime      what a client does with a managed_ptr between make_managed and free
--     Make          make_on_host, make_on_device, make_managed, the casts
--     Unpack        unpack, processArguments, the arguments of make_on_host
--   Kernel          src/util/forall.hpp, src/chai/RajaExecutionSpacePlugin.cpp
--     Uses          programs of kernels on one array, and the value that they compute; Refines and
--                   Fresh relate the two
--     Programs      programs over several arrays, and the values that they compute: Family keeps the
--                   arrays apart, Captures and Loop follow one kernel, Refines relates the two
--   Runs            what a client may call on the array manager and on its arrays (Allowed), and the
--                   worlds that such calls reach from a new one (Reaches), with the totals and the
--                   leaks that it reports there
--   Thin            src/chai/ManagedArray_thin.inl (builds with CHAI_DISABLE_RM)
--     Heap          malloc, realloc and free of the C library, and the elements in memory
--     Device        src/chai/ArrayManager.hpp: gpuMalloc and the other wrappers; the runtimes, CUDA and
--                   HIP, are a parameter with the laws of Device.Laws
--     Handle        the constructors, conversions, comparisons and assignments, slice
--     Array         allocate, reallocate, free, pick, set, incr, decr and the empty operations
--   Tests           concrete worlds, and the theorems at them
--
-- The state. World has the array manager's members, the PointerRecord objects on the heap, the state
-- of Umpire, and logs of the callbacks run and of the calls on Umpire. A command is a function from a
-- World to a result and a World, or to a Fault: a record pointer that is null or dangles, or the mutex
-- locked by the one thread, which holds it. A record is deleted by taking it off the heap, so that a
-- use after a delete is a fault. A scope under a lock_guard is `with_lock`. The user's callbacks are
-- opaque: a run of one is an entry of the log.
--
-- Thin arrays have a state of their own, a Heap: the live blocks, the next address, the end of the
-- address space, and the element at each address. A result is `undefined` where C leaves the behaviour
-- undefined, and `exited` where a check of the runtime's errors ends the process. malloc fails where
-- the address space is used up; realloc to no bytes frees, as glibc's does.
--
-- Bounds. size_t is a natural number, with `% 2 ^ 64` where the source adds, subtracts or multiplies;
-- the index of `forall` is an int in the source and a natural number here. The loops are over the
-- spaces of the build, over the entries of the map, or over a range, and are structural recursions:
-- none has fuel.
--
-- Not modelled: device code, several threads of the host, arrays that are nested deeper than once,
-- the constructors that make_managed runs, src/chai/managed_array.hpp, which is in no build, and
-- src/chai/ManagedArrayView.hpp. The threads of a kernel's grid run one after another: forall
-- launches them in the order of their indices, where a device may choose any (Kernel.Threads is
-- about every order). The resource manager's calls succeed, except for a copy of a whole block
-- from or to a null address. The logging macros have no effect on the state. What memory holds,
-- and where an element can be accessed, is a parameter with laws, for elements (ElementMemory) and
-- for inner handles (HandleMemory).
pub mod Base
pub mod Space
pub mod Umpire
pub mod World
pub mod ArrayManager
pub mod ManagedArray
pub mod ManagedPtr
pub mod Kernel
pub mod Runs
pub mod Thin
pub mod Tests
