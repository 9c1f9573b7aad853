-- ===== src/ManagedArray/Allocate.antt =====
-- ManagedArray::allocate, reallocate, free, reset and registerTouch.
pub mod Handle
pub mod Pinned
pub mod Release
use chai.Base.{
  ℕ, Bool, List, if◌then◌else◌, not, ite, ◌||◌, ◌==◌, ◌∷◌, ◌&&◌, ◌*◌, [], ◌%◌, size_mod, true,
}
use chai.World.{
  new, modify, load, Cmd, UserCallback, when, pure, null_record, ignore, ◌>>=◌, ◌>>◌, get,
}
use chai.ArrayManager.Move as Manager
use chai.ArrayManager.Reallocate as Realloc
use chai.ArrayManager.Touch
use chai.ArrayManager.Touch.{reset_touch}
use chai.Umpire.{Env, AllocatorId, RecordPointer, Pointer, nullptr}
use chai.ManagedArray.Handle.{Element, ManagedArray, not_nullptr}
use chai.Space.{ExecutionSpace, update, space_dec, pinned, has_gpu, cpu, gpu, um, spaces}
use chai.ArrayManager.Create.{make_managed}
use chai.ArrayManager.Free.{free_record}

-- `for (s : ss) allocators[s] = getAllocatorId(space == PINNED ? PINNED : s)`
unfoldable pub choose_allocators :
    ExecutionSpace
    → (ExecutionSpace → AllocatorId)
    → List ExecutionSpace
    → (ExecutionSpace → AllocatorId)
    → ExecutionSpace
    → AllocatorId
choose_allocators space ids [] to = to
choose_allocators space ids (s ∷ ss) to =
    choose_allocators space ids ss (update to s (ite (space_dec space pinned) (ids pinned) (ids s)))

module _ {E : Env} where
  -- The array's record, made where the array has none yet.
  unfoldable pub own_record : ManagedArray → ExecutionSpace → Cmd E RecordPointer
  unfolding new modify
  own_record a space = if not (a.pointer_record == null_record) then pure a.pointer_record else do
    r ← new
    w ← get
    modify r (λ p. record p {
      allocators = choose_allocators space w.allocators (spaces E.config) p.allocators;
    })
    pure r

  -- Memory of UM and of PINNED serves the CPU too, and the GPU where the build has one.
  unfoldable pub share :
      Bool → RecordPointer → ExecutionSpace → ExecutionSpace → Pointer → Cmd E (Unit {0})
  unfolding modify
  share enabled r shared space base = when enabled (
      ite (space_dec space shared)
        (modify r (λ p. record p {
          last_space = shared;
          pointers =
              if has_gpu E.config
              then update (update p.pointers cpu base) gpu base
              else update p.pointers cpu base;
        }))
        (pure tt))

  -- The array's memory: in a space, or in none yet.
  unfoldable pub first_memory : RecordPointer → ExecutionSpace → Cmd E Pointer
  unfolding load modify
  first_memory r space =
      ite (space_dec space ExecutionSpace.none)
        (do modify r (λ p. record p { pointers = update p.pointers space nullptr }); pure nullptr)
        (do Manager.allocate r space; p ← load r; pure (p.pointers space))

  unfoldable pub reset : ManagedArray → Cmd E (Unit {0})
  reset a = reset_touch a.pointer_record

module _ {E : Env} (T : Element) where
  unfoldable pub allocate : ManagedArray → ℕ → ExecutionSpace → UserCallback → Cmd E ManagedArray
  unfolding modify
  allocate a elems space cback = if a.is_slice || elems == 0 then pure a else do
    r ← own_record a space
    modify r (λ p. record p { user_callback = cback; size = T.sizeof_t * elems % size_mod })
    base ← first_memory r space
    share E.config.um r um space base
    share E.config.pinned r pinned space base
    pure (record a {
      elems = elems;
      active_base_pointer = base;
      active_pointer = base;
      pointer_record = r;
    })

  -- A record for a pointer that the array manager does not know yet.
  unfoldable pub adopt : ManagedArray → ExecutionSpace → Cmd E RecordPointer
  adopt a space =
      if a.pointer_record == null_record
      then make_managed a.active_base_pointer (a.elems * T.sizeof_t % size_mod) space true
      else pure a.pointer_record

  unfoldable pub free : ManagedArray → ExecutionSpace → Cmd E ManagedArray
  free a space = if a.is_slice || not (not_nullptr a) then pure a else do
    r ← adopt a space
    free_record r space
    pure (record a {
      has_manager = true;
      active_pointer = nullptr;
      active_base_pointer = nullptr;
      elems = 0;
      offset = 0;
      pointer_record = ite (space_dec space ExecutionSpace.none) null_record r;
    })

  unfoldable pub reallocate : ManagedArray → ℕ → Cmd E ManagedArray
  reallocate a elems =
      if a.is_slice
      then pure a
      else if elems == 0
      then free a ExecutionSpace.none
      else if a.elems == 0 && a.active_base_pointer == nullptr
      then allocate a elems cpu ignore
      else (do
        r ← adopt a cpu
        base ← Realloc.reallocate T.sizeof_t a.active_base_pointer elems r
        pure (record a {
          elems = elems;
          active_base_pointer = base;
          active_pointer = base;
          pointer_record = r;
        }))

  unfoldable pub register_touch : ManagedArray → ExecutionSpace → Cmd E ManagedArray
  register_touch a space = do
    r ←
        (if not (a.active_pointer == nullptr)
            && (a.pointer_record == nullptr || a.pointer_record == null_record)
          then make_managed a.active_base_pointer (a.elems * T.sizeof_t % size_mod) space true
          else pure a.pointer_record)
    Touch.register_touch r space
    pure (record a { pointer_record = r })
