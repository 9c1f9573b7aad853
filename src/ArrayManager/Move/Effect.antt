-- ===== src/ArrayManager/Move/Effect.antt =====
-- The final states of ArrayManager::allocate and of the parts of ArrayManager::move.
use chai.Base.{◌≡◌, ◌≢◌, inl, true, false, none, some, if◌then◌else◌, arith, ◌==◌}
use chai.Space.{ExecutionSpace, update, spaces, fill}
use chai.Umpire.{Env, Pointer, RecordPointer, nullptr}
use chai.World.{
  PointerRecord, alloc, move, copied, null_record, allocated, World, done, put_record, called,
  copy_memory,
}
use chai.ArrayManager.Callbacks.Log.{notified, callback_lem}
use chai.ArrayManager.Register.Effect.{with_owner, told, entered, register_pointer-fresh}
use chai.ArrayManager.Touch.{reset_touch}
use chai.ArrayManager.Move.{allocate, finish_move}

pub update_self {ℓ} :
    {A : Type ℓ} (f : ExecutionSpace → A) (s : ExecutionSpace) (v : A) → update f s v s ≡ v
update_self f s v = ground arith

module _ {E : Env} (w : World E) (r : RecordPointer) (p : PointerRecord)
    (space : ExecutionSpace) where
  -- What Umpire returns for the record in the space.
  abbrev pub new_pointer : Pointer
  new_pointer = (E.allocate (p.allocators space) p.size w.umpire).0

  abbrev pub placed : PointerRecord
  placed = record p { pointers = update p.pointers space new_pointer }

  -- After the allocation and its callback, before the registration.
  unfoldable pub announced : World E
  announced =
      notified
        (put_record r (some placed) (
          called (allocated (p.allocators space) p.size new_pointer)
            (E.allocate (p.allocators space) p.size w.umpire).1 w))
        r placed alloc space

  unfoldable pub after_allocate : World E
  unfolding announced
  after_allocate =
      told (entered announced r placed space true) r (with_owner E placed space true) space
        (placed.pointers space)

  pub allocate_lem :
      r ≢ nullptr
      → w.heap r ≡ some p
      → w.locked ≡ false
      → E.find new_pointer w.pointer_map ≡ none
      → allocate r space w ≡ done tt after_allocate
  unfolding allocate after_allocate
  allocate_lem nz h unlocked fresh = ground (
    arith,
    callback_lem
        (put_record r (some placed) (
          called (allocated (p.allocators space) p.size new_pointer)
            (E.allocate (p.allocators space) p.size w.umpire).1 w))
        r placed nz (ground arith) alloc space,
    register_pointer-fresh announced r placed space true (ground arith) (ground arith)
        (inl (ground arith)),
  )

  -- The record after the allocation.
  abbrev pub held : PointerRecord
  held = with_owner E placed space true

  pub after_allocate-heap :
      (q : RecordPointer) → after_allocate.heap q ≡ (if q == r then some held else w.heap q)
  unfolding after_allocate
  after_allocate-heap q = ground arith

  pub after_allocate-locked : after_allocate.locked ≡ false
  unfolding after_allocate
  after_allocate-locked = ground arith

  pub after_allocate-current : after_allocate.current_execution_space ≡ w.current_execution_space
  unfolding after_allocate announced
  after_allocate-current = ground arith

  pub after_allocate-next : after_allocate.next_record ≡ w.next_record
  unfolding after_allocate announced
  after_allocate-next = ground arith

  pub after_allocate-map : after_allocate.pointer_map ≡ E.insert new_pointer r w.pointer_map
  unfolding after_allocate
  after_allocate-map = ground arith

-- The world after the copy to `dst`, its callback and the reset.
unfoldable pub after_finish :
    {E : Env}
    → World E
    → RecordPointer
    → PointerRecord
    → ExecutionSpace
    → (dst src : Pointer) → World E
after_finish {E} w r p space dst src =
    put_record r (some (record p { touched = fill (spaces E.config) false p.touched })) (
      if dst == src
      then w
      else notified (called (copied dst src) (E.copy dst src w.umpire) w) r p move space)

pub finish_move_lem :
    {E : Env} (w : World E) (r : RecordPointer) (p : PointerRecord) (space : ExecutionSpace)
    (dst src : Pointer)
    → r ≢ nullptr
    → r ≢ null_record
    → w.heap r ≡ some p
    → dst ≢ nullptr
    → src ≢ nullptr
    → finish_move r space dst src w ≡ done tt (after_finish w r p space dst src)
unfolding finish_move after_finish reset_touch copy_memory
finish_move_lem {E} w r p space dst src nz nn h to from =
    ground (
      arith,
      callback_lem (called (copied dst src) (E.copy dst src w.umpire) w) r p nz h move space,
    )
