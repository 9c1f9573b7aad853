-- ===== src/ArrayManager/Move/Stale.antt =====
-- A move of an array that no touch marks, into a space that has no pointer yet.
use chai.Base.{◌≢◌, ◌≡◌, some, false, arith, ◌∙◌, true, ap, refl}
use chai.World.{World, PointerRecord, captured, done}
use chai.Umpire.{Env, Pointer, ManagerLaws, MapLaws, RecordPointer, nullptr}
use chai.Space.{ExecutionSpace}
use chai.ArrayManager.Move.Coherence.{
  IsReady, IsMovable, Ensured-absent, told-Kept, move_record-migrate,
}
use chai.ArrayManager.Callbacks.Log.{notified}
use chai.ArrayManager.Move.{migrate, move_record}
use chai.ArrayManager.Move.Effect.{
  after_allocate, announced, new_pointer, held, placed, after_allocate-heap, update_self,
}
use chai.ArrayManager.Register.Effect.{entered}

module _ {E : Env} {Block : Type 0} {contents : E.Manager → Pointer → Block}
    {IsLive : E.Manager → Pointer → Type 0} (laws : ManagerLaws E Block contents IsLive)
    (map : MapLaws E) (w : World E) (r : RecordPointer) (p : PointerRecord) (space : ExecutionSpace)
    (ready : IsReady laws w) (real : r ≢ nullptr) (at : w.heap r ≡ some p)
    (spaced : space ≢ ExecutionSpace.none) (other : space ≢ p.last_space)
    (movable : IsMovable E.config p) where
  abbrev captured_world : World E
  captured_world = notified w r p captured space

  migrate-untouched :
      p.pointers space ≡ nullptr
      → p.touched p.last_space ≡ false
      → migrate r space captured_world ≡ done tt (after_allocate captured_world r p space)
  unfolding migrate
  migrate-untouched gone clean = ground (
    arith,
    (Ensured-absent laws captured_world r p space
        (record { unlocked = ready.unlocked; map_live = ready.map_live }) real at gone map).runs,
  )

  new_block :
      contents (after_allocate captured_world r p space).umpire (new_pointer w r p space)
      ≡ contents (E.allocate (p.allocators space) p.size w.umpire).1 (new_pointer w r p space)
  unfolding after_allocate announced
  new_block =
      (told-Kept laws
        (entered (announced captured_world r p space) r (placed captured_world r p space) space
          true)
        r (held captured_world r p space) space ((placed captured_world r p space).pointers space)
        (new_pointer w r p space) (laws.allocate_live (p.allocators space) p.size w.umpire)).1

  -- A move into a space without a pointer, of a record that no touch marks where it was last
  -- touched, succeeds and leaves in the space a new block with the bytes that Umpire gave it: the
  -- value in the last space is not copied. The space is neither NONE nor the last, the record is live
  -- and its memory not in UM or PINNED of a build with that, the mutex is free, the map holds live
  -- pointers only, and the resource manager and the map meet their laws.
  pub move_record-stale :
      p.pointers space ≡ nullptr
      → p.touched p.last_space ≡ false
      → (w' : World E) × (p' : PointerRecord) × (move_record r space w ≡ done tt w')
        × (w'.heap r ≡ some p')
        × (p'.pointers space ≡ new_pointer w r p space)
        × (p'.last_space ≡ p.last_space)
        × (contents w'.umpire (p'.pointers space)
            ≡ contents
                (E.allocate (p.allocators space) p.size w.umpire).1
                (new_pointer w r p space))
  move_record-stale gone clean = (
    after_allocate captured_world r p space,
    held captured_world r p space,
    move_record-migrate w r p space real at spaced other movable ∙ migrate-untouched gone clean,
    ground (arith, after_allocate-heap captured_world r p space r),
    update_self p.pointers space (new_pointer w r p space),
    refl,
    ap (contents (after_allocate captured_world r p space).umpire)
          (update_self p.pointers space (new_pointer w r p space))
        ∙ new_block,
  )
