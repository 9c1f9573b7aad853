-- ===== src/ArrayManager/Start.antt =====
-- The constructor of ArrayManager, and the null record.
use chai.Base.{true, false, not, ◌&&◌, ◌||◌, if◌then◌else◌, some, none, [], ◌==◌}
use chai.Space.{ExecutionSpace, Config, cpu, gpu, um, pinned}
use chai.Umpire.{Env, AllocatorId}
use chai.World.{World, empty, new_record, null_record}

-- The names by which the constructor asks Umpire for allocators.
pub data AllocatorName : Type 0 where
  host device managed page_locked : AllocatorName

-- `m_allocators`, by the branches of the preprocessor. The entry of NONE is not set.
unfoldable pub first_allocators :
    Config → (AllocatorName → AllocatorId) → ExecutionSpace → AllocatorId
first_allocators c get_allocator cpu = get_allocator host
first_allocators c get_allocator gpu =
    if c.gpu_simulation then get_allocator host else get_allocator device
first_allocators c get_allocator um = get_allocator managed
first_allocators c get_allocator pinned =
    if (c.cuda || c.hip) && not c.gpu_simulation
    then get_allocator page_locked
    else get_allocator host
first_allocators c get_allocator _ = 0

-- The one object on the heap is the null record, `s_null_record`.
unfoldable pub construct : (E : Env) → (AllocatorName → AllocatorId) → E.Manager → World E
construct E get_allocator u = record {
  heap = λ r. if r == null_record then some new_record else none;
  next_record = 2;
  current_execution_space = ExecutionSpace.none;
  default_allocation_space = cpu;
  pointer_map = E.clear;
  allocators = first_allocators E.config get_allocator;
  locked = false;
  user_callback = empty;
  callbacks_active = true;
  device_synchronize = false;
  synced_since_last_kernel = false;
  umpire = u;
  events = [];
  calls = [];
}
