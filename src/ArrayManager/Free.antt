-- ===== src/ArrayManager/Free.antt =====
-- ArrayManager::free.
pub mod Effect
pub mod Single
pub mod Shared
pub mod Deallocations
pub mod Erase
pub mod Clean
use chai.Base.{Bool, true, false, not, ite, if◌then◌else◌, ◌==◌, ◌&&◌, List, [], ◌∷◌}
use chai.Space.{ExecutionSpace, um, pinned, space_dec, update, spaces}
use chai.Umpire.{Env, Pointer, RecordPointer, nullptr}
use chai.World.{
  PointerRecord, free, World, Cmd, done, ◌>>=◌, ◌>>◌, pure, when, bind, load, modify, delete,
  with_lock, for_each, map_erase, deallocate_memory, deregister_memory, null_record,
}
use chai.ArrayManager.Callbacks.{callback}

-- `for (space_t : …) if (space_ptr == pointers[space_t]) pointers[space_t] = nullptr`
unfoldable pub forget :
    List ExecutionSpace → Pointer → (ExecutionSpace → Pointer) → ExecutionSpace → Pointer
forget [] q pointers = pointers
forget (s ∷ ss) q pointers =
    forget ss q (if q == pointers s then update pointers s nullptr else pointers)

-- `space == spaceToFree || spaceToFree == NONE`
abbrev pub selected {ℓ} : {A : Type ℓ} → ExecutionSpace → ExecutionSpace → A → A → A
selected space space_to_free x y =
    ite (space_dec space space_to_free) x (ite (space_dec space_to_free ExecutionSpace.none) x y)

module _ {E : Env} where
  -- The pointer is the one of UM or of PINNED, and the other spaces may share it.
  unfoldable pub release_shared :
      RecordPointer → ExecutionSpace → Pointer → PointerRecord → Cmd E (Unit {0})
  unfolding deallocate_memory modify
  release_shared r shared q p = do
    callback r free shared
    deallocate_memory (p.allocators shared) q
    modify r (λ p'. record p' { pointers = forget (spaces E.config) q p'.pointers })

  unfoldable pub release_own :
      RecordPointer → ExecutionSpace → Pointer → PointerRecord → Cmd E (Unit {0})
  unfolding deallocate_memory modify
  release_own r space q p = do
    callback r free space
    deallocate_memory (p.allocators space) q
    modify r (λ p'. record p' { pointers = update p'.pointers space nullptr })

  -- The branches of the preprocessor: `#if UM … #elif PINNED … #endif`.
  unfoldable pub release :
      RecordPointer → ExecutionSpace → Pointer → PointerRecord → Cmd E (Unit {0})
  release r space q p =
      if E.config.um
      then (if q == p.pointers um then release_shared r um q p else release_own r space q p)
      else if E.config.pinned
      then (if q == p.pointers pinned then release_shared r pinned q p else release_own r space q p)
      else release_own r space q p

  -- The body of the loop over the spaces.
  unfoldable pub free_space : RecordPointer → ExecutionSpace → Cmd E (Unit {0})
  unfolding load deregister_memory with_lock map_erase
  free_space r space = do
    p ← load r
    when (not (p.pointers space == nullptr)) (do
      (if p.owned space
          then release r space (p.pointers space) p
          else deregister_memory (p.pointers space))
      with_lock (map_erase (p.pointers space)))

  unfoldable pub free_record : RecordPointer → ExecutionSpace → Cmd E (Unit {0})
  unfolding delete
  free_record r space_to_free = if r == nullptr then pure tt else do
    for_each (spaces E.config)
        (λ space. selected space space_to_free (free_space r space) (pure tt))
    when (not (r == null_record))
        (ite (space_dec space_to_free ExecutionSpace.none) (delete r) (pure tt))
