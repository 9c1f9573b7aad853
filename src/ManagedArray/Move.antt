-- ===== src/ManagedArray/Move.antt =====
-- ManagedArray::move, the copy constructor, which moves, and shallowCopy.
pub mod Coherence
pub mod Settled
use chai.Base.{Bool, ite, if◌then◌else◌, not, ◌==◌, false, ◌&&◌, ◌/◌}
use chai.World.{◌>>=◌, ◌>>◌, PointerRecord, load, Cmd, null_record, pure, when}
use chai.Space.{Config, space_dec, ExecutionSpace, um, pinned}
use chai.Umpire.{Env, nullptr}
use chai.ManagedArray.Handle.{Element, ManagedArray, advance}
use chai.ArrayManager.Move.{move_pointer}
use chai.ArrayManager.Settings.{get_execution_space}
use chai.ArrayManager.Touch

-- Memory of UM and of PINNED stays where it is, and is not marked.
unfoldable pub is_pinned_down : Config → PointerRecord → Bool
is_pinned_down c p =
    ite (space_dec p.last_space um) c.um (ite (space_dec p.last_space pinned) c.pinned false)

module _ {E : Env} (T : Element) where
  -- `registerTouch` is the second parameter of the source.
  unfoldable pub move : ManagedArray → ExecutionSpace → (touch : Bool) → Cmd E ManagedArray
  unfolding load
  move a space touch = if a.pointer_record == null_record then pure a else do
    base ← move_pointer a.active_base_pointer a.pointer_record space
    p ← load a.pointer_record
    when (not (is_pinned_down E.config p) && touch) (Touch.register_touch a.pointer_record space)
    pure (record a { active_base_pointer = base; active_pointer = advance T base a.offset })

  -- `ManagedArray(ManagedArray const& other)`
  unfoldable pub copy : ManagedArray → Cmd E ManagedArray
  unfolding load
  copy other = if other.active_base_pointer == nullptr && other.elems == 0 then pure other else do
    elems ←
        (if not (other.pointer_record == nullptr) && not other.is_slice
          then (do p ← load other.pointer_record; pure (p.size / T.sizeof_t))
          else pure other.elems)
    space ← get_execution_space
    move (record other { elems = elems }) space (not T.is_const)

  unfoldable pub shallow_copy : ManagedArray → Cmd E ManagedArray
  unfolding load
  shallow_copy other =
      if not (other.pointer_record == nullptr) && not other.is_slice
      then (do p ← load other.pointer_record; pure (record other { elems = p.size / T.sizeof_t }))
      else pure other
