-- ===== src/Tests/Worlds.antt =====
-- The worlds that the tests run in.
use chai.Umpire.{Env, nullptr}
use chai.Space.{Config, update, cpu, ExecutionSpace}
use chai.Umpire.Concrete.{concrete}
use chai.World.{PointerRecord, World, new_record, user}
use chai.Base.{false, if◌then◌else◌, true, ◌==◌, some, none, ◌∷◌, []}

abbrev pub simulated : Config
simulated = record { cuda = false; hip = false; gpu_simulation = true; um = false; pinned = false }

abbrev pub env : Env
env = concrete simulated

-- Written on the CPU, at address 1.
abbrev pub written : PointerRecord
written = record new_record {
  size = 8;
  pointers = update (λ _. nullptr) cpu 1;
  touched = update (λ _. false) cpu true;
  last_space = cpu;
}

abbrev pub start : World env
start = record {
  heap = λ r. if r == 2 then some written else if r == 1 then some new_record else none;
  next_record = 3;
  current_execution_space = ExecutionSpace.none;
  default_allocation_space = cpu;
  pointer_map = (1, 2) ∷ [];
  allocators = λ _. 0;
  locked = false;
  user_callback = user 7;
  callbacks_active = true;
  device_synchronize = false;
  synced_since_last_kernel = false;
  umpire = record { last = 1; block = λ q. if q == 1 then 42 else 0 };
  events = [];
  calls = [];
}
