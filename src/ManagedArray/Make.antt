-- ===== src/ManagedArray/Make.antt =====
-- The other constructors of ManagedArray, makeManagedArray, deepCopy and setUserCallback.
use chai.Base.{
  ℕ, List, Bool, ◌∷◌, not, true, if◌then◌else◌, ◌==◌, ◌/◌, [], false, ◌&&◌, ◌||◌, ◌*◌, ◌%◌,
  size_mod,
}
use chai.World.{◌>>=◌, ◌>>◌, new, modify, UserCallback, Cmd, load, pure, when, ignore, null_record}
use chai.ManagedArray.Allocate
use chai.ManagedArray.Handle.{ManagedArray, Element, empty_array, slice}
use chai.Umpire.{Env, AllocatorId, Pointer, RecordPointer, nullptr}
use chai.Space.{ExecutionSpace, update, cpu}
use chai.ArrayManager.Query.{get_pointer_record, get_size}
use chai.ArrayManager.Create.{deep_copy_record, make_managed}

-- `for (space : spaces) allocators[space] = ids[i++]`; there are as many ids as spaces.
unfoldable pub given_allocators :
    List ExecutionSpace
    → List AllocatorId
    → (ExecutionSpace → AllocatorId)
    → ExecutionSpace
    → AllocatorId
given_allocators [] ids to = to
given_allocators (s ∷ ss) [] to = to
given_allocators (s ∷ ss) (i ∷ ids) to = given_allocators ss ids (update to s i)

module _ {E : Env} where
  -- `ManagedArray(spaces, allocators)`
  unfoldable pub with_allocators : List ExecutionSpace → List AllocatorId → Cmd E ManagedArray
  unfolding new modify
  with_allocators ss ids = do
    r ← new
    modify r (λ p. record p { allocators = given_allocators ss ids p.allocators })
    pure (record empty_array { pointer_record = r })

  unfoldable pub set_callback : ManagedArray → UserCallback → Cmd E (Unit {0})
  unfolding modify
  set_callback a cback =
      when (not (a.pointer_record == nullptr) && not (a.pointer_record == null_record))
        (modify a.pointer_record (λ p. record p { user_callback = cback }))

module _ {E : Env} (T : Element) where
  -- `ManagedArray(elems, space)`
  unfoldable pub sized : ℕ → ExecutionSpace → Cmd E ManagedArray
  sized elems space = Allocate.allocate T empty_array elems space ignore

  -- `ManagedArray(elems, spaces, allocators, space)`
  unfoldable pub sized_with_allocators :
      ℕ → List ExecutionSpace → List AllocatorId → ExecutionSpace → Cmd E ManagedArray
  sized_with_allocators elems ss ids space = do
    a ← with_allocators ss ids
    Allocate.allocate T a elems space ignore

  -- `ManagedArray(PointerRecord* record, ExecutionSpace space)`, which reads the record first.
  unfoldable pub of_record : RecordPointer → ExecutionSpace → Cmd E ManagedArray
  unfolding load
  of_record r space = do
    p ← load r
    pure (record {
      active_pointer = p.pointers space;
      active_base_pointer = p.pointers space;
      has_manager = true;
      elems = p.size / T.sizeof_t;
      offset = 0;
      pointer_record = if r == nullptr then null_record else r;
      is_slice = false;
    })

  -- `ManagedArray(data, array_manager, elems, pointer_record)`
  unfoldable pub of_data : Pointer → ℕ → RecordPointer → Cmd E ManagedArray
  of_data pointer elems r = do
    r' ←
        (if r == null_record || r == nullptr
          then make_managed pointer (T.sizeof_t * elems % size_mod) cpu true
          else pure r)
    Allocate.register_touch T
        (record {
          active_pointer = pointer;
          active_base_pointer = pointer;
          has_manager = true;
          elems = elems;
          offset = 0;
          pointer_record = r';
          is_slice = false;
        })
        cpu

  -- The implicit conversion of a raw pointer: its record is looked up.
  unfoldable pub of_pointer : Pointer → Cmd E ManagedArray
  of_pointer pointer = do
    bytes ← get_size pointer
    r ← get_pointer_record pointer
    pure (record empty_array {
      active_pointer = pointer;
      active_base_pointer = pointer;
      elems = bytes / T.sizeof_t;
      pointer_record = r;
    })

  -- `makeManagedArray(data, elems, space, owned)`
  unfoldable pub make_managed_array : Pointer → ℕ → ExecutionSpace → Bool → Cmd E ManagedArray
  make_managed_array pointer elems space owned = do
    found ← get_pointer_record pointer
    r ←
        (if found == null_record
          then make_managed pointer (T.sizeof_t * elems % size_mod) space owned
          else pure found)
    a ← of_record r space
    let a' = if not (found == null_record) && not owned then slice T a 0 elems else a
    if T.is_const then pure a' else Allocate.register_touch T a' space

  -- `deepCopy(array)`
  unfoldable pub deep_copy : ManagedArray → Cmd E ManagedArray
  unfolding load
  deep_copy a = do
    r ← get_pointer_record a.active_base_pointer
    c ← deep_copy_record r
    p ← load c
    of_record c p.last_space
