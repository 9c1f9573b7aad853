-- ===== src/ArrayManager/Free/Effect.antt =====
-- The effect of one round of the loop of ArrayManager::free.
use chai.Base.{◌≢◌, some, false, ◌≡◌, arith, true}
use chai.World.{World, free, PointerRecord, put_record, called, deregistered, deallocated, done}
use chai.Umpire.{Env, RecordPointer, Pointer, nullptr}
use chai.Space.{ExecutionSpace, um, pinned, update, spaces}
use chai.ArrayManager.Callbacks.Log.{notified, callback_lem}
use chai.ArrayManager.Free.{free_space, release, release_own, release_shared, forget}

module _ {E : Env} (w : World E) (r : RecordPointer) (p : PointerRecord) where
  -- The memory of one space is given back, and its entry of the map with it.
  abbrev pub given_back :
      (shared : ExecutionSpace) → Pointer → (pointers : ExecutionSpace → Pointer) → World E
  given_back shared q pointers =
      record (put_record r (some (record p { pointers = pointers })) (
        called (deallocated (p.allocators shared) q) (E.deallocate (p.allocators shared) q w.umpire)
          (notified w r p free shared))) { pointer_map = E.erase q w.pointer_map; locked = false }

  -- Memory that the record does not own is left to its owner.
  abbrev pub given_up : Pointer → World E
  given_up q = record (called (deregistered q) (E.deregister_allocation q w.umpire) w) {
    pointer_map = E.erase q w.pointer_map;
    locked = false;
  }

module _ {E : Env} (w : World E) (r : RecordPointer) (p : PointerRecord) (space : ExecutionSpace)
    (real : r ≢ nullptr) (unlocked : w.locked ≡ false) (at : w.heap r ≡ some p) where
  pub free_space-null : p.pointers space ≡ nullptr → free_space r space w ≡ done tt w
  unfolding free_space
  free_space-null gone = ground arith

  pub free_space-unowned :
      p.pointers space ≢ nullptr
      → p.owned space ≡ false
      → free_space r space w ≡ done tt (given_up w r p (p.pointers space))
  unfolding free_space
  free_space-unowned here foreign = ground arith

  pub free_space-own :
      p.pointers space ≢ nullptr
      → p.owned space ≡ true
      → (E.config.um ≡ true → p.pointers space ≢ p.pointers um)
      → (E.config.um ≡ false → E.config.pinned ≡ true → p.pointers space ≢ p.pointers pinned)
      → free_space r space w
        ≡ done tt (given_back w r p space (p.pointers space) (update p.pointers space nullptr))
  unfolding free_space release release_own
  free_space-own here own no_um no_pinned = ground (arith, callback_lem w r p real at free space)

  pub free_space-um :
      p.pointers space ≢ nullptr
      → p.owned space ≡ true
      → E.config.um ≡ true
      → p.pointers space ≡ p.pointers um
      → free_space r space w
        ≡ done tt (
            given_back w r p um
              (p.pointers space)
              (forget (spaces E.config) (p.pointers space) p.pointers))
  unfolding free_space release release_shared
  free_space-um here own um_build same = ground (arith, callback_lem w r p real at free um)

  pub free_space-pinned :
      p.pointers space ≢ nullptr
      → p.owned space ≡ true
      → E.config.um ≡ false
      → E.config.pinned ≡ true
      → p.pointers space ≡ p.pointers pinned
      → free_space r space w
        ≡ done tt (
            given_back w r p pinned
              (p.pointers space)
              (forget (spaces E.config) (p.pointers space) p.pointers))
  unfolding free_space release release_shared
  free_space-pinned here own um_build pinned_build same =
      ground (arith, callback_lem w r p real at free pinned)
