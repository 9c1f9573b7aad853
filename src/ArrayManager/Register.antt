-- ===== src/ArrayManager/Register.antt =====
-- ArrayManager::registerPointer, deregisterPointer and frontOfAllocation.
pub mod Abandoned
pub mod Deregister
pub mod Effect
use chai.Base.{
  Bool, true, false, not, ite, if◌then◌else◌, ◌==◌, ◌&&◌, Option, none, some, List, [], ◌∷◌,
}
use chai.Space.{ExecutionSpace, space_dec, update, spaces, all_spaces, fill}
use chai.Umpire.{Env, Pointer, RecordPointer, nullptr}
use chai.World.{
  PointerRecord, found_abandoned, World, Cmd, done, ◌>>=◌, ◌>>◌, pure, get, put, when, bind, load,
  modify, delete, with_lock, for_each, map_insert, map_erase, resize_memory, register_memory,
  deregister_memory, null_record,
}
use chai.ArrayManager.Callbacks.{callback}

-- `for (i : …) if (!pointers[i]) owned[i] = true`
unfoldable pub own_null :
    List ExecutionSpace
    → (ExecutionSpace → Pointer)
    → (ExecutionSpace → Bool)
    → ExecutionSpace
    → Bool
own_null [] pointers owned = owned
own_null (s ∷ ss) pointers owned =
    own_null ss pointers (if pointers s == nullptr then update owned s true else owned)

module _ {E : Env} where
  -- The map's record for a pointer that is registered anew is deleted, unless it is the same one.
  unfoldable pub drop_abandoned :
      RecordPointer → ExecutionSpace → Option RecordPointer → Cmd E (Unit {0})
  unfolding modify delete
  drop_abandoned r space none = pure tt
  drop_abandoned r space (some found) = when (not (found == r)) (do
    callback found found_abandoned space
    modify found (λ p. record p { pointers = fill (spaces E.config) nullptr p.pointers })
    delete found)

  -- Umpire's record of the pointer is given the size, or made.
  unfoldable pub tell_manager : RecordPointer → ExecutionSpace → Pointer → Cmd E (Unit {0})
  unfolding load resize_memory register_memory
  tell_manager r space pointer = do
    p ← load r
    w ← get
    if E.has_allocator pointer w.umpire
        then resize_memory pointer p.size
        else register_memory pointer p.size (p.allocators space)

  unfoldable pub register_pointer : RecordPointer → ExecutionSpace → Bool → Cmd E (Unit {0})
  unfolding with_lock load map_insert modify
  register_pointer r space owned = with_lock (do
    p ← load r
    w ← get
    drop_abandoned r space (E.find (p.pointers space) w.pointer_map)
    map_insert (p.pointers space) r
    modify r (λ q. record q {
      owned = update (own_null (all_spaces E.config) q.pointers q.owned) space owned;
    })
    when (not (p.pointers space == nullptr)) (tell_manager r space (p.pointers space)))

  unfoldable pub deregister_space : RecordPointer → Bool → ExecutionSpace → Cmd E (Unit {0})
  unfolding load deregister_memory map_erase
  deregister_space r from_umpire i = do
    p ← load r
    when (not (p.pointers i == nullptr))
        (do when from_umpire (deregister_memory (p.pointers i)); map_erase (p.pointers i))

  unfoldable pub deregister_pointer : RecordPointer → Bool → Cmd E (Unit {0})
  unfolding with_lock delete
  deregister_pointer r from_umpire = with_lock (do
    for_each (all_spaces E.config) (deregister_space r from_umpire)
    when (not (r == null_record)) (delete r))

  unfoldable pub front_of_allocation : Pointer → Cmd E Pointer
  front_of_allocation pointer = do
    w ← get
    if not (pointer == nullptr) && E.has_allocator pointer w.umpire
        then elim (E.find_allocation pointer w.umpire) [
          | none ↦ pure nullptr
          | some front ↦ pure front
        ]
        else pure nullptr
