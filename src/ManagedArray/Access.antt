-- ===== src/ManagedArray/Access.antt =====
-- ManagedArray::data, cdata, data(space) and getPointer.
use chai.Base.{Bool, not, false, if◌then◌else◌, ◌==◌, ◌||◌, ◌&&◌}
use chai.World.{◌>>=◌, ◌>>◌, load, Cmd, pure, null_record}
use chai.Umpire.{Env, Pointer, nullptr}
use chai.ManagedArray.Handle.{Element, ManagedArray, advance}
use chai.Space.{ExecutionSpace, cpu}
use chai.ArrayManager.Settings.{get_execution_space, set_execution_space}
use chai.ManagedArray.Move

module _ {E : Env} (T : Element) where
  -- The array is moved to the CPU, and so the handle comes back with the pointer.
  unfoldable pub host_data : ManagedArray → (touch : Bool) → Cmd E (ManagedArray × Pointer)
  host_data a touch = do
    a' ← (if not (a.active_pointer == nullptr) then Move.move T a cpu touch else pure a)
    pure (a', if a'.elems == 0 && not a'.is_slice then nullptr else a'.active_pointer)

  unfoldable pub data_pointer : ManagedArray → Cmd E (ManagedArray × Pointer)
  data_pointer a = host_data a (not T.is_const)

  unfoldable pub cdata : ManagedArray → Cmd E (ManagedArray × Pointer)
  cdata a = host_data a false

  -- The execution space is set for the move, and then set back.
  unfoldable pub visit : ManagedArray → ExecutionSpace → Cmd E ManagedArray
  visit a space = do
    old ← get_execution_space
    set_execution_space space
    a' ← Move.move T a space (not T.is_const)
    set_execution_space old
    pure a'

  unfoldable pub data_in :
      ManagedArray → ExecutionSpace → (do_move : Bool) → Cmd E (ManagedArray × Pointer)
  unfolding load
  data_in a space do_move =
      if (a.pointer_record == nullptr || a.pointer_record == null_record)
        || (a.elems == 0 && not a.is_slice)
      then pure (a, nullptr)
      else (do
        a' ← (if do_move then visit a space else pure a)
        p ← load a'.pointer_record
        pure (a', advance T (p.pointers space) (if a'.is_slice then a'.offset else 0)))

  unfoldable pub get_pointer :
      ManagedArray → ExecutionSpace → (do_move : Bool) → Cmd E (ManagedArray × Pointer)
  get_pointer a space do_move = data_in a space do_move
