-- ===== src/ArrayManager/Register/Effect.antt =====
-- The final state of ArrayManager::registerPointer.
use chai.Base.{◌≡◌, ◌⊎◌, Bool, false, none, some, if◌then◌else◌, arith, ◌==◌}
use chai.Space.{ExecutionSpace, update, all_spaces}
use chai.Umpire.{Env, Pointer, RecordPointer, nullptr}
use chai.World.{PointerRecord, resized, registered, World, done, put_record, called}
use chai.ArrayManager.Register.{own_null, drop_abandoned, tell_manager, register_pointer}

-- The record with its ownership brought up to date.
abbrev pub with_owner : Env → PointerRecord → ExecutionSpace → Bool → PointerRecord
with_owner E p space owned = record p {
  owned = update (own_null (all_spaces E.config) p.pointers p.owned) space owned;
}

module _ {E : Env} (w : World E) (r : RecordPointer) (p : PointerRecord) where
  -- The world after Umpire has been told of a pointer.
  abbrev pub told : ExecutionSpace → Pointer → World E
  told space q =
      if q == nullptr
      then w
      else if E.has_allocator q w.umpire
      then called (resized q p.size) (E.resize_allocation q p.size w.umpire) w
      else called (registered q p.size (p.allocators space))
          (E.register_allocation q p.size (p.allocators space) w.umpire) w

  -- The map and the record after a registration that meets no other record.
  abbrev pub entered : ExecutionSpace → Bool → World E
  entered space owned =
      put_record r (some (with_owner E p space owned))
        (record w { pointer_map = E.insert (p.pointers space) r w.pointer_map; locked = false })

-- Registering a pointer that the map does not know, or knows for the same record, enters it in the
-- map for the record, which from then on owns it or not as given, tells Umpire its size unless it is
-- null, and leaves the mutex free. The record is on the heap, and the mutex was free.
pub register_pointer-fresh :
    {E : Env} (w : World E) (r : RecordPointer) (p : PointerRecord) (space : ExecutionSpace)
    (owned : Bool)
    → w.heap r ≡ some p
    → w.locked ≡ false
    → (E.find (p.pointers space) w.pointer_map ≡ none)
      ⊎ (E.find (p.pointers space) w.pointer_map ≡ some r)
    → register_pointer r space owned w
      ≡ done tt
          (told (entered w r p space owned) r (with_owner E p space owned) space (p.pointers space))
unfolding register_pointer drop_abandoned tell_manager
register_pointer-fresh w r p space owned h unlocked free = ground arith
