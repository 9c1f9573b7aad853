-- ===== src/Thin/Array.antt =====
-- The operations of a thin ManagedArray (src/chai/ManagedArray_thin.inl). An operation that is const in
-- the source leaves the handle, and the other ones yield it.
pub mod Elements
pub mod Resize
pub mod Failures
pub mod Lifecycle
pub mod Release
use chai.Thin.Device.{Build, gpu_malloc_managed, gpu_free, synchronize, gpu_memcpy}
use chai.ManagedArray.Handle.{Element, ManagedArray, advance}
use chai.Base.{ℕ, ◌*◌, Bool, ◌%◌, if◌then◌else◌, size_mod, ite}
use chai.Umpire.{Pointer, nullptr}
use chai.Thin.Heap.{Heap, Result, ◌>>=◌, ◌>>◌, pure, load, store, malloc, free_block, realloc}
use chai.Space.{ExecutionSpace, space_dec, cpu}
use chai.Thin.Handle.{empty_array}

-- `sizeof(T) * elems`
abbrev pub bytes : Element → ℕ → ℕ
bytes T elems = T.sizeof_t * elems % size_mod

module _ {A : Type 0} (B : Build A) where
  unfoldable pub release_memory : Pointer → Heap A → Result A (Unit {0})
  release_memory p = if B.config.um then gpu_free B p else free_block p

  abbrev pub synchronize_um : Heap A → Result A (Unit {0})
  synchronize_um = if B.config.um then synchronize B else pure tt

module _ {A : Type 0} (B : Build A) (T : Element) where
  unfoldable pub new_memory : ManagedArray → ℕ → Heap A → Result A Pointer
  new_memory a elems =
      if B.config.um
      then gpu_malloc_managed B a.active_pointer (bytes T elems)
      else malloc (bytes T elems)

  unfoldable pub allocate : ManagedArray → ℕ → ExecutionSpace → Heap A → Result A ManagedArray
  unfolding new_memory
  allocate a elems space =
      if a.is_slice then pure (record a { active_base_pointer = a.active_pointer }) else do
        p ← new_memory a elems
        pure (record a { elems = elems; active_pointer = p; active_base_pointer = p })

  -- `ManagedArray(size_t elems, ExecutionSpace space)`, and the one with allocators.
  unfoldable pub of_size : ℕ → ExecutionSpace → Heap A → Result A ManagedArray
  unfolding allocate
  of_size elems space = allocate (record empty_array { elems = elems }) elems space

  -- The new block, with the bytes of the old one.
  unfoldable pub move_memory : ManagedArray → ℕ → Heap A → Result A Pointer
  move_memory a new_elems =
      if B.config.um
      then (do
        p ← gpu_malloc_managed B nullptr (bytes T new_elems)
        gpu_memcpy B p a.active_pointer (bytes T a.elems)
        gpu_free B a.active_pointer
        pure p)
      else realloc a.active_pointer (bytes T new_elems)

  unfoldable pub reallocate : ManagedArray → ℕ → Heap A → Result A ManagedArray
  unfolding move_memory
  reallocate a new_elems = if a.is_slice then pure a else do
    p ← move_memory a new_elems
    pure (record a { elems = new_elems; active_pointer = p; active_base_pointer = p })

  -- The space counts only as one of CPU and NONE or not.
  unfoldable pub free : ManagedArray → ExecutionSpace → Heap A → Result A ManagedArray
  unfolding release_memory
  free a space =
      if a.is_slice
      then pure a
      else (let released = (do
        release_memory B a.active_pointer
        pure (record a { active_pointer = nullptr; active_base_pointer = nullptr; elems = 0 })) in
          ite (space_dec space cpu) released
            (ite (space_dec space ExecutionSpace.none) released (pure a)))

  -- `reset`, `registerTouch` and `move`, which do nothing, and the copy constructor.
  unfoldable pub reset : ManagedArray → Heap A → Result A ManagedArray
  reset a = pure a

  unfoldable pub register_touch : ManagedArray → ExecutionSpace → Heap A → Result A ManagedArray
  register_touch a space = pure a

  unfoldable pub move :
      ManagedArray → ExecutionSpace → (touch : Bool) → Heap A → Result A ManagedArray
  move a space touch = pure a

  unfoldable pub copy : ManagedArray → Heap A → Result A ManagedArray
  copy other = pure other

  -- `operator[]` yields the address, where the element is read and written.
  unfoldable pub pick : ManagedArray → ℕ → Heap A → Result A A
  pick a i = do synchronize_um B; load (advance T a.active_pointer i) T.sizeof_t

  unfoldable pub set : ManagedArray → ℕ → A → Heap A → Result A (Unit {0})
  set a i v = do synchronize_um B; store (advance T a.active_pointer i) T.sizeof_t v

  -- `++` and `--` of an element, by a function of its type.
  unfoldable pub change : (A → A) → ManagedArray → ℕ → Heap A → Result A (Unit {0})
  change f a i = do
    synchronize_um B
    v ← load (advance T a.active_pointer i) T.sizeof_t
    store (advance T a.active_pointer i) T.sizeof_t (f v)
