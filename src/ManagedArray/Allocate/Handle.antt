-- ===== src/ManagedArray/Allocate/Handle.antt =====
-- A new array (ManagedArray::allocate).
use chai.Umpire.{Env, Pointer, ManagerLaws, MapLaws, nullptr, RecordPointer}
use chai.ManagedArray.Handle.{size, Element, ManagedArray, empty_array}
use chai.World.{World, UserCallback, PointerRecord, put_record, new_record, null_record, done}
use chai.Base.{ℕ, none, some, ◌*◌, ◌%◌, ◌+◌, size_mod, ◌<◌, ◌≢◌, ◌≡◌, arith, sym, ◌∙◌, ap, refl}
use chai.Space.{ExecutionSpace, spaces, um, pinned}
use chai.ArrayManager.Move.Effect.{
  after_allocate, held, new_pointer, update_self, allocate_lem, after_allocate-map,
}
use chai.ManagedArray.Allocate.{allocate, choose_allocators, own_record, first_memory, share}
use chai.ArrayManager.Move.Coherence.{IsReady, Ensured-absent, new_pointer_fresh, Ensured}
use chai.ManagedArray.Slices.{IsHandle}

module _ {E : Env} {Block : Type 0} {contents : E.Manager → Pointer → Block}
    {IsLive : E.Manager → Pointer → Type 0} (laws : ManagerLaws E Block contents IsLive)
    (map : MapLaws E) (T : Element) (w : World E) (elems : ℕ) (space : ExecutionSpace)
    (cback : UserCallback) where
  abbrev pub chosen : PointerRecord
  chosen = record new_record {
    allocators = choose_allocators space w.allocators (spaces E.config) (λ _. 0);
  }

  abbrev pub sized_record : PointerRecord
  sized_record = record chosen { user_callback = cback; size = T.sizeof_t * elems % size_mod }

  -- The array's record is made, and has no memory yet.
  abbrev pub prepared : World E
  prepared = put_record w.next_record (some sized_record) (
      put_record w.next_record (some chosen)
        (record (put_record w.next_record (some new_record) w) { next_record = w.next_record + 1 }))

  abbrev pub filled : World E
  filled = after_allocate prepared w.next_record sized_record space

  abbrev pub base : Pointer
  base = (held prepared w.next_record sized_record space).pointers space

  abbrev pub new_array : ManagedArray
  new_array = record empty_array {
    elems = elems;
    active_base_pointer = base;
    active_pointer = base;
    pointer_record = w.next_record;
  }

  pub prepared-Ensured :
      IsReady laws w
      → null_record < w.next_record
      → Ensured laws prepared w.next_record sized_record space
          (new_pointer prepared w.next_record sized_record space)
          filled
          (held prepared w.next_record sized_record space)
  prepared-Ensured ready next =
      Ensured-absent laws prepared w.next_record sized_record space
        (record { unlocked = ready.unlocked; map_live = ready.map_live }) (λ e. omega arith)
        (ground arith) refl map

  pub base-new_pointer : base ≡ new_pointer prepared w.next_record sized_record space
  base-new_pointer = update_self sized_record.pointers space _

  prepared-fresh :
      IsReady laws w
      → null_record < w.next_record
      → E.find (new_pointer prepared w.next_record sized_record space) w.pointer_map ≡ none
  prepared-fresh ready next =
      new_pointer_fresh laws prepared w.next_record sized_record space
        (record { unlocked = ready.unlocked; map_live = ready.map_live }) (λ e. omega arith)
        (ground arith)

  pub allocate-new_array :
      0 < elems
      → space ≢ ExecutionSpace.none
      → space ≢ um
      → space ≢ pinned
      → IsReady laws w
      → null_record < w.next_record
      → allocate T empty_array elems space cback w ≡ done new_array filled
  unfolding allocate own_record first_memory share
  allocate-new_array some_elems spaced no_um no_pinned ready next = ground (
    arith,
    allocate_lem prepared w.next_record sized_record space (λ e. omega arith) (ground arith)
        ready.unlocked (prepared-fresh ready next),
    (prepared-Ensured ready next).heap w.next_record,
  )

  -- Allocating an empty array in a space that is neither NONE, UM nor PINNED makes a record with
  -- memory of its own in the space, as many bytes as the elements take, and the callback; the map has
  -- the memory for the record, and the handle is well formed and points to it. The element count is
  -- positive and fits in size_t, the mutex is free, the map holds live pointers only, the new
  -- record's address is neither null nor that of the null record, and the resource manager and
  -- the map meet their laws.
  pub allocate-IsHandle :
      0 < elems
      → elems < size_mod
      → space ≢ ExecutionSpace.none
      → space ≢ um
      → space ≢ pinned
      → IsReady laws w
      → null_record < w.next_record
      → (a : ManagedArray) × (w' : World E) × (p : PointerRecord) × (allocate T empty_array elems
            space cback w
          ≡ done a w')
        × IsHandle T a
        × (size a ≡ elems)
        × (a.pointer_record ≡ w.next_record)
        × (w'.heap w.next_record ≡ some p)
        × (p.size ≡ T.sizeof_t * elems % size_mod)
        × (p.user_callback ≡ cback)
        × (p.pointers space ≡ a.active_base_pointer)
        × (a.active_base_pointer ≢ nullptr)
        × (E.find a.active_base_pointer w'.pointer_map ≡ some w.next_record)
        × IsReady laws w'
  unfolding size
  allocate-IsHandle some_elems fits spaced no_um no_pinned ready next =
      let c : RecordPointer = w.next_record in
      let e = prepared-Ensured ready next in
      (
        new_array,
        filled,
        held prepared c sized_record space,
        allocate-new_array some_elems spaced no_um no_pinned ready next,
        record { active = omega arith; fits = omega arith },
        refl,
        refl,
        ground (arith, e.heap c),
        refl,
        refl,
        refl,
        (λ n. e.dst_real (sym base-new_pointer ∙ n)),
        ap (λ m. E.find base m) (after_allocate-map prepared c sized_record space)
            ∙ ap (λ q. E.find base (E.insert q c w.pointer_map)) (sym base-new_pointer)
            ∙ map.find_insert_fresh base c w.pointer_map
                (ap (λ q. E.find q w.pointer_map) base-new_pointer ∙ prepared-fresh ready next),
        e.ready,
      )
