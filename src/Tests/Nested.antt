-- ===== src/Tests/Nested.antt =====
-- An array of three ManagedArrays, in memory of handles.
use chai.Umpire.{Env, Pointer, nullptr}
use chai.ManagedArray.Nested.{HandleMemory, allocate_nested, init_inner, move_inner}
use chai.ManagedArray.Handle.{Element, ManagedArray, empty_array}
use chai.ManagedArray.Nested.Initialised.{HandleLaws, init_inner-move_inner}
use chai.World.{PointerRecord, World, done, ignore, new_record, fault, bad_access, user}
use chai.Space.{space_dec, update, ExecutionSpace, cpu}
use chai.Tests.Worlds.{simulated, written, env}
use chai.Base.{if◌then◌else◌, false, arith, ◌==◌, ◌≡◌, none, some, [], true, inl, refl}
use chai.Tests.Arrays.{four_bytes}
use chai.ManagedArray.Nested.Unplaced.{allocate_nested-none}
use chai.Tests.Kernels.{two}

abbrev handle_env : Env
handle_env = record {
  config = simulated;
  Manager = Pointer → ManagedArray;
  allocate = λ a n u. (8, u);
  deallocate = λ a p u. u;
  copy = λ dst src u. u;
  copy_bytes = λ dst src n u. u;
  has_allocator = λ p u. false;
  find_allocation = λ p u. none;
  resize_allocation = λ p n u. u;
  register_allocation = λ p n a u. u;
  deregister_allocation = λ p u. u;
  Map = env.Map;
  clear = env.clear;
  find = env.find;
  insert = env.insert;
  erase = env.erase;
  entries = env.entries;
}

abbrev handles : HandleMemory handle_env
handles = record { peek = λ p u. u p; poke = λ p a u q. if q == p then a else u q }

-- `ManagedArray<ManagedArray<float>>`, with 64 bytes for each inner handle.
abbrev handle_element : Element
handle_element = record { sizeof_t = 64; is_const = false }

handles-laws : HandleLaws handles handle_element
handles-laws = record {
  poke_here = λ p a u. ground arith;
  poke_other = λ p q a u apart. ground arith;
}

abbrev outer_record : PointerRecord
outer_record = record written { size = 192; pointers = update (λ _. nullptr) cpu 1000 }

abbrev outer : ManagedArray
outer = record empty_array {
  active_pointer = 1000;
  active_base_pointer = 1000;
  elems = 3;
  pointer_record = 2;
}

-- The handles are garbage at first.
abbrev nested_start : World handle_env
nested_start = record {
  heap = λ r. if r == 2 then some outer_record else if r == 1 then some new_record else none;
  next_record = 3;
  current_execution_space = ExecutionSpace.none;
  default_allocation_space = cpu;
  pointer_map = [];
  allocators = λ _. 0;
  locked = false;
  user_callback = user 7;
  callbacks_active = true;
  device_synchronize = false;
  synced_since_last_kernel = false;
  umpire = λ p. two;
  events = [];
  calls = [];
}

init_inner-move_inner_example :
    (w' : World handle_env) × (w'' : World handle_env) × (init_inner handles handle_element outer 0
        nested_start
      ≡ done tt w')
    × (move_inner handles handle_element four_bytes outer w' ≡ done tt w'')
    × (w''.heap ≡ nested_start.heap)
    × (w'.umpire 1128 ≡ empty_array)
    × (w''.umpire 1128 ≡ empty_array)
unfolding space_dec
init_inner-move_inner_example =
    init_inner-move_inner handles-laws 1000 four_bytes new_record outer outer_record nested_start
      (λ e. omega arith) (omega arith) refl refl refl refl refl refl 2 (omega arith)

allocate_nested-none_example :
    allocate_nested handles handle_element empty_array 5 ExecutionSpace.none ignore nested_start
    ≡ fault bad_access
allocate_nested-none_example =
    allocate_nested-none handles handle_element empty_array 5 ignore nested_start (omega arith) refl
      (inl refl)
