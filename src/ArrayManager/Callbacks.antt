-- ===== src/ArrayManager/Callbacks.antt =====
-- ArrayManager::callback, and the members that set what it runs.
pub mod Log
use chai.Base.{◌+◌, List, [], ◌∷◌, ◌==◌, if◌then◌else◌, Bool, true, false, not}
use chai.Space.{ExecutionSpace}
use chai.Umpire.{Env, RecordPointer, nullptr}
use chai.World.{
  Action, UserCallback, empty, ignore, user, PointerRecord, Event, World, Cmd, done, ◌>>=◌, ◌>>◌,
  pure, get, put, when, load, modify, bind,
}

module _ {E : Env} where
  -- A user's callback is handed the record; its run is logged with the size that it finds there.
  unfoldable pub invoke : UserCallback → RecordPointer → Action → ExecutionSpace → Cmd E (Unit {0})
  unfolding load
  invoke empty r a s = pure tt
  invoke ignore r a s = pure tt
  invoke (user n) r a s = do
    p ← load r
    put (λ w. record w {
      events =
          record { callee = n; pointer_record = r; action = a; space = s; size = p.size }
          ∷ w.events;
    })

  unfoldable pub callback : RecordPointer → Action → ExecutionSpace → Cmd E (Unit {0})
  unfolding load
  callback r a s = do
    w ← get
    when w.callbacks_active (do
      when (not (r == nullptr)) (do p ← load r; invoke p.user_callback r a s)
      invoke w.user_callback r a s)

  unfoldable pub set_global_user_callback : UserCallback → Cmd E (Unit {0})
  set_global_user_callback f = put (λ w. record w { user_callback = f })

  unfoldable pub enable_callbacks : Cmd E (Unit {0})
  enable_callbacks = put (λ w. record w { callbacks_active = true })

  unfoldable pub disable_callbacks : Cmd E (Unit {0})
  disable_callbacks = put (λ w. record w { callbacks_active = false })
