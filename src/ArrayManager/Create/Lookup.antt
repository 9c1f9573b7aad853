-- ===== src/ArrayManager/Create/Lookup.antt =====
-- ArrayManager::makeManaged, and the lookups that follow it.
use chai.Umpire.{Env, MapLaws, Pointer, nullptr}
use chai.World.{World, null_record, PointerRecord, done, new_record, put_record, called, registered}
use chai.Base.{ℕ, Bool, ◌≢◌, ◌<◌, ◌≡◌, false, none, some, arith, refl, true, ◌+◌, inl}
use chai.Space.{ExecutionSpace, space_dec, update, spaces, all_spaces}
use chai.ArrayManager.Create.{make_managed, find_or_new, or_default, copy_entries}
use chai.ArrayManager.Query.{get_pointer_record, get_size}
use chai.ArrayManager.Register.Effect.{told, with_owner, entered, register_pointer-fresh}
use chai.ArrayManager.Register.{register_pointer, own_null}
use chai.ArrayManager.Move.Effect.{update_self}

module _ {E : Env} (map : MapLaws E) (w : World E) (pointer : Pointer) (size : ℕ)
    (space : ExecutionSpace) (owned : Bool) where
  abbrev pub target : ExecutionSpace
  target = or_default space w

  -- The new record as it is before its registration.
  abbrev pub filled_in : PointerRecord
  filled_in = record new_record {
    pointers = update (λ _. nullptr) target pointer;
    owned = update (λ _. true) target owned;
    size = size;
    allocators = copy_entries (spaces E.config) w.allocators (λ _. 0);
  }

  abbrev pub unregistered : World E
  unregistered =
      record (put_record w.next_record (some filled_in) (
        called (registered pointer size (w.allocators target))
          (E.register_allocation pointer size (w.allocators target) w.umpire) w)) {
            next_record = w.next_record + 1;
          }

  abbrev pub registered_world : World E
  registered_world =
      told (entered unregistered w.next_record filled_in target owned) w.next_record
        (with_owner E filled_in target owned) target pointer

  pub pointer_there : filled_in.pointers target ≡ pointer
  unfolding space_dec
  pointer_there = ground arith

  pub register_filled_in :
      w.locked ≡ false
      → E.find pointer w.pointer_map ≡ none
      → register_pointer w.next_record target owned unregistered
        ≡ done tt (
            told
              (entered unregistered w.next_record filled_in target owned)
              w.next_record
              (with_owner E filled_in target owned)
              target
              (filled_in.pointers target))
  register_filled_in unlocked unknown =
      register_pointer-fresh unregistered w.next_record filled_in target owned (ground arith)
        unlocked (inl (rw pointer_there unknown))

  pub make_managed-registered :
      pointer ≢ nullptr
      → 0 < size
      → w.locked ≡ false
      → E.find pointer w.pointer_map ≡ none
      → make_managed pointer size space owned w ≡ done w.next_record registered_world
  unfolding make_managed find_or_new get_pointer_record
  make_managed-registered real filled unlocked unknown =
      ground (arith, register_filled_in unlocked unknown, pointer_there)

  -- Managing a pointer that the map does not know makes a new record, which `getPointerRecord` then
  -- finds for the pointer: it has the pointer and the ownership in the space, or in the default
  -- space where NONE is given, and the size, which `getSize` reports. The pointer is not null, the
  -- size is not 0, the mutex is free, and the next record's address is neither null nor that of the
  -- null record.
  pub make_managed-get_pointer_record :
      pointer ≢ nullptr
      → 0 < size
      → w.locked ≡ false
      → E.find pointer w.pointer_map ≡ none
      → null_record < w.next_record
      → (w' : World E) × (p : PointerRecord) × (make_managed pointer size space owned w
          ≡ done w.next_record w')
        × (w'.heap w.next_record ≡ some p)
        × (p.pointers (or_default space w) ≡ pointer)
        × (p.owned (or_default space w) ≡ owned)
        × (p.size ≡ size)
        × (get_pointer_record pointer w' ≡ done w.next_record w')
        × (get_size pointer w' ≡ done size w')
  unfolding get_pointer_record get_size
  make_managed-get_pointer_record real filled unlocked unknown spare = (
    registered_world,
    with_owner E filled_in target owned,
    make_managed-registered real filled unlocked unknown,
    ground arith,
    pointer_there,
    update_self (own_null (all_spaces E.config) filled_in.pointers filled_in.owned) target owned,
    refl,
    ground (arith, map.find_insert_fresh pointer w.next_record w.pointer_map unknown),
    ground (arith, map.find_insert_fresh pointer w.next_record w.pointer_map unknown),
  )
