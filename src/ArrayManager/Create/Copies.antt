-- ===== src/ArrayManager/Create/Copies.antt =====
-- ArrayManager::deepCopyRecord: the copy and its source.
use chai.Umpire.{Env, Pointer, ManagerLaws, MapLaws, RecordPointer, nullptr}
use chai.World.{World, PointerRecord, new_record, put_record, called, copied, done, copy_memory}
use chai.ArrayManager.Move.Effect.{
  after_allocate, held, new_pointer, update_self, allocate_lem, after_allocate-heap,
}
use chai.Space.{fill, spaces, update}
use chai.Base.{◌≡◌, some, true, ◌+◌, ◌≢◌, false, arith, sym, ◌∙◌, refl}
use chai.ArrayManager.Move.{allocate}
use chai.ArrayManager.Create.{deep_copy_record, copy_entries}
use chai.ArrayManager.Move.Coherence.{IsReady, Ensured-absent, new_pointer_fresh}

module _ {E : Env} {Block : Type 0} {contents : E.Manager → Pointer → Block}
    {IsLive : E.Manager → Pointer → Type 0} (laws : ManagerLaws E Block contents IsLive)
    (map : MapLaws E) (w : World E) (r : RecordPointer) (p : PointerRecord) where
  abbrev pub blank : PointerRecord
  blank = record new_record {
    size = p.size;
    last_space = p.last_space;
    allocators = copy_entries (spaces E.config) p.allocators (λ _. 0);
  }

  -- The copy's record is made, and has no memory yet.
  abbrev pub made : World E
  made =
      put_record w.next_record (some blank)
        (record (put_record w.next_record (some new_record) w) { next_record = w.next_record + 1 })

  abbrev pub filled : World E
  filled = after_allocate made w.next_record blank p.last_space

  abbrev pub kept_record : PointerRecord
  kept_record = held made w.next_record blank p.last_space

  abbrev pub copy_record : PointerRecord
  copy_record = record kept_record {
    owned = fill (spaces E.config) true kept_record.owned;
    touched = update (fill (spaces E.config) false kept_record.touched) p.last_space true;
  }

  abbrev pub source : Pointer
  source = p.pointers p.last_space

  abbrev pub target : Pointer
  target = copy_record.pointers p.last_space

  abbrev pub copied_world : World E
  copied_world =
      called (copied target source) (E.copy target source filled.umpire)
        (put_record w.next_record (some copy_record) filled)

  target_new : target ≡ new_pointer made w.next_record blank p.last_space
  target_new =
      update_self blank.pointers p.last_space (new_pointer made w.next_record blank p.last_space)

  pub deep_copy_record-copied :
      w.heap r ≡ some p
      → r ≢ w.next_record
      → source ≢ nullptr
      → allocate w.next_record p.last_space made ≡ done tt filled
      → deep_copy_record r w ≡ done w.next_record copied_world
  unfolding deep_copy_record copy_memory
  deep_copy_record-copied at other from runs = ground (
    arith,
    runs,
    target_new,
    (laws.allocate_new (blank.allocators p.last_space) p.size w.umpire).0,
    after_allocate-heap made w.next_record blank p.last_space w.next_record,
  )

  -- A deep copy of a live record is a new record of the same size, with a block of its own in the
  -- record's last space, where it is marked as touched; its block has the bytes of the source's, and
  -- the source's record and bytes are as before. The source has a live block in its last space, the
  -- mutex is free, the map holds live pointers only, the new record's address is neither null nor
  -- the source's, and the resource manager and the map meet their laws.
  pub deep_copy_record-contents :
      IsReady laws w
      → w.heap r ≡ some p
      → IsLive w.umpire source
      → r ≢ w.next_record
      → w.next_record ≢ nullptr
      → (w' : World E) × (q : PointerRecord) × (deep_copy_record r w ≡ done w.next_record w')
        × (w'.heap w.next_record ≡ some q)
        × (w'.heap r ≡ some p)
        × (q.size ≡ p.size)
        × (q.last_space ≡ p.last_space)
        × (q.touched p.last_space ≡ true)
        × (q.pointers p.last_space ≢ source)
        × (contents w'.umpire (q.pointers p.last_space) ≡ contents w.umpire source)
        × (contents w'.umpire source ≡ contents w.umpire source)
  deep_copy_record-contents ready at live other real =
      let prepared : IsReady laws made = record {
        unlocked = ready.unlocked;
        map_live = ready.map_live;
      } in
      let e =
        Ensured-absent laws made w.next_record blank p.last_space prepared real (ground arith) refl
          map in
      let apart : target ≢ source = λ same.
        (laws.allocate_new (blank.allocators p.last_space) p.size w.umpire).1 source live
          (sym same ∙ target_new) in
      (
        copied_world,
        copy_record,
        deep_copy_record-copied at other (laws.live_real source w.umpire live) (
            allocate_lem made w.next_record blank p.last_space real (ground arith) ready.unlocked (
              new_pointer_fresh laws made w.next_record blank p.last_space prepared real
                (ground arith))),
        ground arith,
        ground (arith, e.heap r),
        refl,
        refl,
        update_self (fill (spaces E.config) false kept_record.touched) p.last_space true,
        apart,
        laws.copy_to target source filled.umpire ∙ (e.kept source live).1,
        laws.copy_keeps target source source filled.umpire (λ x. apart (sym x))
            ∙ (e.kept source live).1,
      )
