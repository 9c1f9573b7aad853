-- ===== src/ManagedArray/Nested/Unplaced.antt =====
-- An allocation of ManagedArrays without a space.
use chai.World.{
  modify, World, new, UserCallback, fault, bad_access, null_record, PointerRecord, put_record,
  new_record, done,
}
use chai.Umpire.{Env, nullptr, Pointer, RecordPointer}
use chai.ManagedArray.Nested.{HandleMemory, init_inner, allocate_nested, init_elements}
use chai.ManagedArray.Handle.{Element, ManagedArray}
use chai.ManagedArray.Allocate.{own_record, first_memory, choose_allocators}
use chai.Base.{
  ◌<◌, ℕ, ◌≡◌, false, ◌⊎◌, arith, ◌≢◌, suc, some, zero, inl, inr, ◌-◌, ◌*◌, ◌%◌, size_mod, ◌+◌,
  refl, ◌==◌,
}
use chai.Space.{ExecutionSpace, update, spaces}

module _ {E : Env} (V : HandleMemory E) (T : Element) where
  init_inner-null :
      (a : ManagedArray) (w : World E)
      → 0 < a.elems
      → a.active_base_pointer ≡ nullptr
      → init_inner V T a 0 w ≡ fault bad_access
  unfolding init_inner init_elements
  init_inner-null a w some_elems null =
      null_write (a.elems - 0) a.active_base_pointer (omega arith) null
    where
      null_write :
          (n : ℕ) (base : Pointer)
          → 0 < n
          → base ≡ nullptr
          → init_elements V T n 0 base w ≡ fault bad_access
      null_write zero base l e = absurd (omega arith)
      null_write (suc n) base l e = ground arith

  -- The handle, without memory.
  abbrev unplaced : ManagedArray → ℕ → RecordPointer → ManagedArray
  unplaced a elems r = record a {
    elems = elems;
    active_base_pointer = nullptr;
    active_pointer = nullptr;
    pointer_record = r;
  }

  -- The world once the record has its size, its callback and no memory.
  abbrev sized_world : RecordPointer → PointerRecord → ℕ → UserCallback → World E → World E
  sized_world r p elems cback w =
      let p1 : PointerRecord = record p {
        user_callback = cback;
        size = T.sizeof_t * elems % size_mod;
      } in
      put_record r (some (record p1 { pointers = update p1.pointers ExecutionSpace.none nullptr }))
        (put_record r (some p1) w)

  -- The allocators of the build for a new record.
  abbrev chosen_record : World E → PointerRecord
  chosen_record w = record new_record {
    allocators =
        choose_allocators ExecutionSpace.none w.allocators (spaces E.config) new_record.allocators;
  }

  -- The world with a new record.
  abbrev recorded : World E → World E
  recorded w =
      put_record w.next_record (some (chosen_record w))
        (record (put_record w.next_record (some new_record) w) { next_record = w.next_record + 1 })

  own_record-new :
      (a : ManagedArray) (w : World E)
      → a.pointer_record ≡ null_record
      → own_record a ExecutionSpace.none w ≡ done w.next_record (recorded w)
  unfolding own_record new modify
  own_record-new a w fresh = ground arith

  allocate_nested-owned :
      (a : ManagedArray) (elems : ℕ) (cback : UserCallback) (w w' : World E) (r : RecordPointer)
      (p : PointerRecord)
      → 0 < elems
      → a.is_slice ≡ false
      → own_record a ExecutionSpace.none w ≡ done r w'
      → w'.heap r ≡ some p
      → allocate_nested V T a elems ExecutionSpace.none cback w ≡ fault bad_access
  unfolding allocate_nested first_memory modify
  allocate_nested-owned a elems cback w w' r p some_elems whole owned at =
      let some_count : (elems == 0) ≡ false = ground arith in
      ground (
        arith,
        init_inner-null (unplaced a elems r) (sized_world r p elems cback w') some_elems refl,
      )

  -- Allocating an array of ManagedArrays in the space NONE, the default of the constructor that takes
  -- allocators, writes the inner arrays at a null pointer. The element count is positive, and the array
  -- is no slice and has no record yet or a live one.
  pub allocate_nested-none :
      (a : ManagedArray) (elems : ℕ) (cback : UserCallback) (w : World E)
      → 0 < elems
      → a.is_slice ≡ false
      → (a.pointer_record ≡ null_record)
        ⊎ ((a.pointer_record ≢ null_record)
            × ((p : PointerRecord) × (w.heap a.pointer_record ≡ some p)))
      → allocate_nested V T a elems ExecutionSpace.none cback w ≡ fault bad_access
  unfolding own_record
  allocate_nested-none a elems cback w some_elems whole (inl fresh) =
      allocate_nested-owned a elems cback w (recorded w) w.next_record (chosen_record w) some_elems
        whole (own_record-new a w fresh) (ground arith)
  allocate_nested-none a elems cback w some_elems whole (inr (own, (p, at))) =
      allocate_nested-owned a elems cback w w a.pointer_record p some_elems whole (ground arith) at
