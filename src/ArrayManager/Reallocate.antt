-- ===== src/ArrayManager/Reallocate.antt =====
-- ArrayManager::reallocate (src/chai/ArrayManager.inl).
pub mod Announced
pub mod Shared
pub mod Owned
pub mod Host
use chai.Base.{
  ℕ, ◌*◌, Bool, true, not, if◌then◌else◌, ◌==◌, ◌&&◌, min, List, [], ◌∷◌, ◌%◌, size_mod,
}
use chai.Space.{ExecutionSpace, cpu, update, spaces}
use chai.Umpire.{Env, Pointer, RecordPointer, nullptr}
use chai.World.{
  alloc, free, Cmd, ◌>>=◌, ◌>>◌, pure, get, when, load, modify, for_each, map_insert, map_erase,
  allocate_memory, deallocate_memory, copy_memory_bytes,
}
use chai.ArrayManager.Callbacks.{callback}

-- The first space whose pointer is the given one; CPU if there is none.
unfoldable pub space_of :
    List ExecutionSpace → (ExecutionSpace → Pointer) → Pointer → ExecutionSpace
space_of [] pointers q = cpu
space_of (s ∷ ss) pointers q = if pointers s == q then s else space_of ss pointers q

unfoldable pub all_owned : List ExecutionSpace → (ExecutionSpace → Bool) → Bool
all_owned [] owned = true
all_owned (s ∷ ss) owned = owned s && all_owned ss owned

module _ {E : Env} where
  unfoldable pub announce_free : RecordPointer → ExecutionSpace → Cmd E (Unit {0})
  unfolding load
  announce_free r space = do
    p ← load r
    when (not (p.pointers space == nullptr)) (callback r free space)

  -- The body of the loop that gives each space its new allocation.
  unfoldable pub reallocate_space : RecordPointer → ℕ → ℕ → ExecutionSpace → Cmd E (Unit {0})
  unfolding load allocate_memory copy_memory_bytes deallocate_memory modify map_erase map_insert
  reallocate_space r new_size num_bytes space = do
    p ← load r
    when (not (p.pointers space == nullptr)) (do
      w ← get
      new_ptr ← allocate_memory (w.allocators space) new_size
      copy_memory_bytes new_ptr (p.pointers space) num_bytes
      deallocate_memory (w.allocators space) (p.pointers space)
      modify r (λ q. record q { pointers = update q.pointers space new_ptr })
      callback r alloc space
      map_erase (p.pointers space)
      map_insert new_ptr r)

  -- `sizeof_t` is `sizeof(T)`.
  unfoldable pub reallocate : (sizeof_t : ℕ) → Pointer → ℕ → RecordPointer → Cmd E Pointer
  unfolding load modify
  reallocate sizeof_t pointer elems r = do
    p ← load r
    let my_space = space_of (spaces E.config) p.pointers pointer
    if not (all_owned (spaces E.config) p.owned) then pure (p.pointers my_space) else do
      for_each (spaces E.config) (announce_free r)
      modify r (λ q. record q { size = sizeof_t * elems % size_mod })
      for_each (spaces E.config) (
          reallocate_space r (sizeof_t * elems % size_mod)
            (min p.size (sizeof_t * elems % size_mod)))
      q ← load r
      pure (q.pointers my_space)
