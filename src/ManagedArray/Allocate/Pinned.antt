-- ===== src/ManagedArray/Allocate/Pinned.antt =====
-- A new array in PINNED memory (ManagedArray::allocate).
use chai.ManagedArray.Allocate.{allocate}
use chai.ArrayManager.Register.{own_null}
use chai.Umpire.{Env, Pointer, ManagerLaws, MapLaws, nullptr, RecordPointer}
use chai.Space.{space_dec, ExecutionSpace, pinned, update, has_gpu, cpu, gpu, all_spaces}
use chai.Base.{
  List, Bool, ◌≡◌, true, ℕ, ◌∷◌, if◌then◌else◌, ◌≢◌, ◌==◌, arith, ◌<◌, [], refl, some, false, sym,
  ◌∙◌,
}
use chai.ManagedArray.Handle.{Element, ManagedArray, empty_array}
use chai.World.{World, UserCallback, PointerRecord, null_record, done, put_record}
use chai.ManagedArray.Allocate.Handle.{prepared, base, sized_record}
use chai.ArrayManager.Move.Effect.{held, new_pointer, update_self, after_allocate, allocate_lem}
use chai.ManagedArray.Allocate.{own_record, first_memory, share}
use chai.ArrayManager.Free.Shared.{IsPinned}
use chai.ArrayManager.Move.Coherence.{IsReady, Ensured-absent, new_pointer_fresh}

own_null-own :
    (ss : List ExecutionSpace) (pointers : ExecutionSpace → Pointer) (owned : ExecutionSpace → Bool)
    (s : ExecutionSpace)
    → ((t : ExecutionSpace) → owned t ≡ true)
    → own_null ss pointers owned s ≡ true
unfolding own_null space_dec
own_null-own [] pointers owned s h = h s
own_null-own (t ∷ ss) pointers owned s h =
    own_null-own ss pointers (if pointers t == nullptr then update owned t true else owned) s
      (λ x. ground (arith, h x))

module _ {E : Env} {Block : Type 0} {contents : E.Manager → Pointer → Block}
    {IsLive : E.Manager → Pointer → Type 0} (laws : ManagerLaws E Block contents IsLive)
    (map : MapLaws E) (T : Element) (w : World E) (elems : ℕ) (cback : UserCallback) where
  abbrev sized_pinned : PointerRecord
  sized_pinned = sized_record laws map T w elems pinned cback

  abbrev start_world : World E
  start_world = prepared laws map T w elems pinned cback

  abbrev block : Pointer
  block = base laws map T w elems pinned cback

  abbrev own_block : PointerRecord
  own_block = held start_world w.next_record sized_pinned pinned

  -- The record once the CPU, and the GPU of a build that has one, share the block.
  abbrev shared_block : PointerRecord
  shared_block = record own_block {
    last_space = pinned;
    pointers =
        if has_gpu E.config
        then update (update own_block.pointers cpu block) gpu block
        else update own_block.pointers cpu block;
  }

  shared_block-IsPinned : block ≢ nullptr → IsPinned E.config shared_block block
  unfolding space_dec
  shared_block-IsPinned here = record {
    here = here;
    on_cpu = ground arith;
    on_gpu = λ g. ground arith;
    on_pinned = ground arith;
    not_um = ground arith;
    own = λ s. ground (
      arith,
      own_null-own (all_spaces E.config) own_block.pointers sized_pinned.owned s (λ t. refl),
    );
  }

  -- Allocating an empty array in PINNED memory, in a build with that, makes a record whose one block
  -- is the CPU's, the GPU's where there is one, and PINNED's, all owned, and a handle that points to
  -- the block. The element count is positive, the mutex is free, the map holds live pointers only,
  -- the new record's address is neither null nor that of the null record, and the resource
  -- manager and the map meet their laws.
  pub allocate-IsPinned :
      0 < elems
      → E.config.pinned ≡ true
      → IsReady laws w
      → null_record < w.next_record
      → (a : ManagedArray) × (w' : World E) × (p : PointerRecord) × (allocate T empty_array elems
            pinned cback w
          ≡ done a w')
        × (w'.heap w.next_record ≡ some p)
        × (a.pointer_record ≡ w.next_record)
        × IsPinned E.config p a.active_base_pointer
        × (w'.locked ≡ false)
  unfolding allocate own_record first_memory share space_dec
  allocate-IsPinned some_elems build ready next =
      let c : RecordPointer = w.next_record in
      let real : c ≢ nullptr = λ e. omega arith in
      let was_ready : IsReady laws start_world = record {
        unlocked = ready.unlocked;
        map_live = ready.map_live;
      } in
      let e =
        Ensured-absent laws start_world c sized_pinned pinned was_ready real (ground arith) refl
          map in
      let block_new : block ≡ new_pointer start_world c sized_pinned pinned =
        update_self sized_pinned.pointers pinned _ in
      (
        record empty_array {
          elems = elems;
          active_base_pointer = block;
          active_pointer = block;
          pointer_record = c;
        },
        put_record c (some shared_block) (after_allocate start_world c sized_pinned pinned),
        shared_block,
        ground (
          arith,
          allocate_lem start_world c sized_pinned pinned real (ground arith) ready.unlocked (
              new_pointer_fresh laws start_world c sized_pinned pinned was_ready real
                (ground arith)),
          e.heap c,
        ),
        ground arith,
        refl,
        shared_block-IsPinned (λ n. e.dst_real (sym block_new ∙ n)),
        e.ready.unlocked,
      )
