-- ===== src/ManagedArray/Nested.antt =====
-- ManagedArrays of ManagedArrays: initInner, moveInnerImpl, and the parts of allocate, reallocate and
-- move that call them, where the element type is a CHAICopyable (src/chai/ManagedArray.hpp and
-- ManagedArray.inl).
pub mod Initialised
pub mod Unplaced
use chai.ArrayManager.Reallocate as Realloc
use chai.ManagedArray.Allocate
use chai.ManagedArray.Allocate.{adopt}
use chai.World.{
  modify, ◌>>=◌, ◌>>◌, done, fault, Cmd, load, pure, UserCallback, null_record, bad_access,
  copy_memory_bytes, ignore, when,
}
use chai.ManagedArray.Move.{move, copy, shallow_copy}
use chai.Space.{gpu, cpu, um, pinned, ExecutionSpace, space_dec}
use chai.Umpire.{Env, Pointer, nullptr}
use chai.ManagedArray.Handle.{Element, ManagedArray, advance, empty_array}
use chai.Base.{
  ℕ, if◌then◌else◌, ◌-◌, ◌/◌, Bool, ◌==◌, suc, ◌||◌, ite, ◌*◌, ◌%◌, size_mod, ◌+◌, zero, ◌&&◌, ltb,
}
use chai.ManagedArray.Allocate.{own_record, first_memory, share}

-- Host memory as handles: what it has at an address, and a write there.
pub record HandleMemory (E : Env) : Type 0 where
  pub peek : Pointer → E.Manager → ManagedArray
  pub poke : Pointer → ManagedArray → E.Manager → E.Manager

module _ {E : Env} (V : HandleMemory E) where
  unfoldable pub read : Pointer → Cmd E ManagedArray
  read q w = if q == nullptr then fault bad_access else done (V.peek q w.umpire) w

  unfoldable pub write : Pointer → ManagedArray → Cmd E (Unit {0})
  write q a w =
      if q == nullptr then fault bad_access else done tt (record w { umpire = V.poke q a w.umpire })

-- `T` is ManagedArray<U>.
module _ {E : Env} (V : HandleMemory E) (T : Element) where
  -- `for (size_t i = start; i < start + n; ++i) base[i] = nullptr`
  unfoldable pub init_elements : (n start : ℕ) → Pointer → Cmd E (Unit {0})
  unfolding write
  init_elements zero start base = pure tt
  init_elements (suc n) start base =
      if base == nullptr
      then (λ w. fault bad_access)
      else (do write V (advance T base start) empty_array; init_elements n (start + 1) base)

  -- `initInner(start)`
  unfoldable pub init_inner : ManagedArray → ℕ → Cmd E (Unit {0})
  unfolding init_elements
  init_inner a start = init_elements (a.elems - start) start a.active_base_pointer

  -- `allocate`: the inner arrays are set to nullptr between the memory and its shares.
  unfoldable pub allocate_nested :
      ManagedArray → ℕ → ExecutionSpace → UserCallback → Cmd E ManagedArray
  unfolding modify init_inner
  allocate_nested a elems space cback = if a.is_slice || elems == 0 then pure a else do
    r ← own_record a space
    modify r (λ p. record p { user_callback = cback; size = T.sizeof_t * elems % size_mod })
    base ← first_memory r space
    init_inner
        (record a {
          elems = elems;
          active_base_pointer = base;
          active_pointer = base;
          pointer_record = r;
        })
        0
    share E.config.um r um space base
    share E.config.pinned r pinned space base
    pure (record a {
      elems = elems;
      active_base_pointer = base;
      active_pointer = base;
      pointer_record = r;
    })

  -- `reallocate`: the new inner arrays are set to nullptr, and sent to the GPU where the array is there.
  unfoldable pub reallocate_nested : ManagedArray → ℕ → Cmd E ManagedArray
  unfolding load init_inner copy_memory_bytes allocate_nested
  reallocate_nested a elems =
      if a.is_slice
      then pure a
      else if elems == 0
      then Allocate.free T a ExecutionSpace.none
      else if a.elems == 0 && a.active_base_pointer == nullptr
      then allocate_nested a elems cpu ignore
      else (do
        r ← adopt T a cpu
        base ← Realloc.reallocate T.sizeof_t a.active_base_pointer elems r
        let b : ManagedArray = record a {
          elems = elems;
          active_base_pointer = base;
          active_pointer = base;
          pointer_record = r;
        }
        init_inner b a.elems
        p ← load r
        ite (space_dec p.last_space gpu)
            (when (ltb a.elems elems) (
              copy_memory_bytes (advance T (p.pointers gpu) a.elems)
                (advance T (p.pointers cpu) a.elems) ((elems - a.elems) * T.sizeof_t % size_mod)))
            (pure tt)
        pure b)

-- U is no CHAICopyable.
module _ {E : Env} (V : HandleMemory E) (T U : Element) where
  -- The copy of the handle moves its array, and the handle gets the members of the copy.
  unfoldable pub move_elements : (n i : ℕ) → Pointer → Cmd E (Unit {0})
  unfolding read write
  move_elements zero i host_ptr = pure tt
  move_elements (suc n) i host_ptr = if host_ptr == nullptr then (λ w. fault bad_access) else (do
    a ← read V (advance T host_ptr i)
    inner ← copy U a
    b ← shallow_copy U inner
    write V (advance T host_ptr i) b
    move_elements n (i + 1) host_ptr)

  -- `moveInnerImpl()`
  unfoldable pub move_inner : ManagedArray → Cmd E (Unit {0})
  unfolding load move_elements
  move_inner a = do
    p ← load a.pointer_record
    move_elements (p.size / T.sizeof_t) 0 (p.pointers cpu)

  -- The inner arrays move first where the array was on the host, and last where it comes back from the
  -- GPU.
  unfoldable pub move_nested : ManagedArray → ExecutionSpace → (touch : Bool) → Cmd E ManagedArray
  unfolding load move_inner
  move_nested a space touch = if a.pointer_record == null_record then pure a else do
    p ← load a.pointer_record
    ite (space_dec p.last_space cpu) (move_inner a)
        (ite (space_dec p.last_space ExecutionSpace.none) (move_inner a) (pure tt))
    b ← move T a space touch
    ite (space_dec space gpu) (pure tt) (ite (space_dec p.last_space gpu) (move_inner b) (pure tt))
    pure b
