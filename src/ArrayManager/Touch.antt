-- ===== src/ArrayManager/Touch.antt =====
-- ArrayManager::registerTouch and ArrayManager::resetTouch.
use chai.Base.{true, false, not, ite, ◌==◌, ◌&&◌}
use chai.Space.{ExecutionSpace, space_dec, update, spaces, fill}
use chai.Umpire.{Env, RecordPointer, nullptr}
use chai.World.{Cmd, ◌>>=◌, pure, get, when, modify, null_record}

module _ {E : Env} where
  unfoldable pub register_touch : RecordPointer → ExecutionSpace → Cmd E (Unit {0})
  unfolding modify
  register_touch r space = when (not (r == nullptr) && not (r == null_record)) (
      ite (space_dec space ExecutionSpace.none) (pure tt)
        (modify r λ p. record p { touched = update p.touched space true; last_space = space }))

  -- The overload without a space.
  unfoldable pub register_touch_here : RecordPointer → Cmd E (Unit {0})
  register_touch_here r = do w ← get; register_touch r w.current_execution_space

  unfoldable pub reset_touch : RecordPointer → Cmd E (Unit {0})
  unfolding modify
  reset_touch r =
      when (not (r == nullptr) && not (r == null_record))
        (modify r λ p. record p { touched = fill (spaces E.config) false p.touched })
