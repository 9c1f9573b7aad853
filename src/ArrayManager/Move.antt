-- ===== src/ArrayManager/Move.antt =====
-- ArrayManager::allocate and both overloads of ArrayManager::move.
pub mod Effect
pub mod Coherence
pub mod Follow
pub mod Stale
pub mod Settled
use chai.Base.{Bool, true, false, not, ite, if◌then◌else◌, ◌==◌, ◌&&◌, ◌||◌}
use chai.Space.{ExecutionSpace, cpu, um, pinned, space_dec, update}
use chai.Umpire.{Env, Pointer, RecordPointer, nullptr}
use chai.World.{
  PointerRecord, alloc, move, captured, World, Cmd, done, ◌>>=◌, ◌>>◌, pure, get, put, when, bind,
  load, modify, allocate_memory, copy_memory,
}
use chai.ArrayManager.Callbacks.{callback}
use chai.ArrayManager.Settings.{sync_if_needed}
use chai.ArrayManager.Touch.{reset_touch}
use chai.ArrayManager.Register.{register_pointer}

module _ {E : Env} where
  unfoldable pub allocate : RecordPointer → ExecutionSpace → Cmd E (Unit {0})
  unfolding load allocate_memory modify
  allocate r space = do
    p ← load r
    pointer ← allocate_memory (p.allocators space) p.size
    modify r (λ q. record q { pointers = update q.pointers space pointer })
    callback r alloc space
    register_pointer r space true

  -- The pointer in the space, allocated first where there is none.
  unfoldable pub ensure_allocated : RecordPointer → ExecutionSpace → Cmd E Pointer
  unfolding load
  ensure_allocated r space = do
    p ← load r
    if p.pointers space == nullptr
        then (do allocate r space; q ← load r; pure (q.pointers space))
        else pure (p.pointers space)

  -- The copy, which is left out where both spaces share the memory, and the reset of the touches.
  unfoldable pub finish_move :
      RecordPointer → ExecutionSpace → (dst src : Pointer) → Cmd E (Unit {0})
  unfolding copy_memory
  finish_move r space dst src = do
    when (not (dst == src)) (do copy_memory dst src; callback r move space)
    reset_touch r

  -- The part of `move` that follows its early returns.
  unfoldable pub migrate : RecordPointer → ExecutionSpace → Cmd E (Unit {0})
  unfolding load
  migrate r space = do
    p ← load r
    dst ← ensure_allocated r space
    if not (p.touched p.last_space) || p.pointers p.last_space == nullptr
        then pure tt
        else finish_move r space dst (p.pointers p.last_space)

  unfoldable pub move_record : RecordPointer → ExecutionSpace → Cmd E (Unit {0})
  unfolding load
  move_record r space = ite (space_dec space ExecutionSpace.none) (pure tt) (do
    callback r captured space
    p ← load r
    ite (space_dec space p.last_space) (pure tt) (
        ite (space_dec p.last_space um) (if E.config.um then pure tt else migrate r space) (
          ite (space_dec p.last_space pinned)
            (if E.config.pinned
              then ite (space_dec space cpu) (do _ ← sync_if_needed; pure tt) (pure tt)
              else migrate r space)
            (migrate r space))))

  unfoldable pub move_pointer : Pointer → RecordPointer → ExecutionSpace → Cmd E Pointer
  unfolding load
  move_pointer pointer r space = do
    w ← get
    let to = ite (space_dec space ExecutionSpace.none) w.current_execution_space space
    ite (space_dec to ExecutionSpace.none) (pure pointer)
        (do move_record r to; p ← load r; pure (p.pointers to))
