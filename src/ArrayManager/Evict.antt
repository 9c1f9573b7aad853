-- ===== src/ArrayManager/Evict.antt =====
-- ArrayManager::evict.
pub mod Blocked
pub mod Deadlock
pub mod Passes
use chai.Base.{Bool, true, false, ite, List, [], ◌∷◌, map}
use chai.Space.{ExecutionSpace, space_dec}
use chai.Umpire.{Env, Pointer, RecordPointer}
use chai.World.{World, Cmd, done, ◌>>=◌, ◌>>◌, pure, get, bind, with_lock, for_each}
use chai.ArrayManager.Touch.{register_touch}
use chai.ArrayManager.Move.{move_record}
use chai.ArrayManager.Free.{free_record}

module _ {E : Env} where
  unfoldable pub bring : ExecutionSpace → Pointer × RecordPointer → Cmd E (Unit {0})
  bring destination (_, r) = do move_record r destination; register_touch r destination

  -- The part under the lock: the first pass moves each entry's record, the second frees.
  unfoldable pub evict_all : ExecutionSpace → ExecutionSpace → Cmd E (Unit {0})
  evict_all space destination = do
    w ← get
    for_each (E.entries w.pointer_map) (bring destination)
    for_each (E.entries w.pointer_map) (λ (_, r). free_record r space)

  unfoldable pub evict : ExecutionSpace → ExecutionSpace → Cmd E (Unit {0})
  unfolding with_lock
  evict space destination = ite (space_dec space ExecutionSpace.none) (pure tt) (
      ite (space_dec destination ExecutionSpace.none) (pure tt)
        (ite (space_dec space destination) (pure tt) (with_lock (evict_all space destination))))
