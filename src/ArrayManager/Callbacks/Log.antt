-- ===== src/ArrayManager/Callbacks/Log.antt =====
-- What ArrayManager::callback does: it adds the runs of the user's callbacks to the log.
use chai.Base.{ℕ, ◌≡◌, ◌≢◌, Bool, some, List, ◌∷◌, if◌then◌else◌, arith}
use chai.Space.{ExecutionSpace}
use chai.Umpire.{Env, RecordPointer, nullptr}
use chai.World.{Action, UserCallback, empty, ignore, user, PointerRecord, Event, World, done}
use chai.ArrayManager.Callbacks.{invoke, callback}

module _ (r : RecordPointer) (a : Action) (s : ExecutionSpace) (size : ℕ) where
  abbrev pub tell : UserCallback → List Event → List Event
  tell empty es = es
  tell ignore es = es
  tell (user n) es =
      record { callee = n; pointer_record = r; action = a; space = s; size = size } ∷ es

-- The record's own callback runs first, then the one for all arrays.
abbrev pub notify :
    (active : Bool)
    → (own global : UserCallback) → RecordPointer
    → Action
    → ExecutionSpace
    → ℕ
    → List Event
    → List Event
notify active own global r a s size es =
    if active then tell r a s size global (tell r a s size own es) else es

module _ {E : Env} (w : World E) (r : RecordPointer) (p : PointerRecord) where
  -- The world after the callbacks for an action on a record have run.
  abbrev pub notified : Action → ExecutionSpace → World E
  notified a s = record w {
    events = notify w.callbacks_active p.user_callback w.user_callback r a s p.size w.events;
  }

  -- While callbacks are active, an action on a record that is on the heap and not null runs the
  -- record's own callback and then the one for all arrays, each if it is set, and changes nothing
  -- else; while they are not, it changes nothing.
  pub callback_lem :
      r ≢ nullptr
      → w.heap r ≡ some p
      → (a : Action) (s : ExecutionSpace) → callback r a s w ≡ done tt (notified a s)
  unfolding callback invoke
  callback_lem nz h a s = ground arith
