-- ===== src/ArrayManager/Elements.antt =====
-- ArrayManager::pick and ArrayManager::set (CHAI_ENABLE_PICK).
pub mod Effect
use chai.World.{
  ◌>>◌, done, fault, bad_access, Cmd, register_memory, copy_memory_bytes, deregister_memory,
}
use chai.Umpire.{Env, Pointer, AllocatorId}
use chai.ManagedArray.Handle.{Element, advance}
use chai.Base.{ℕ, Bool, if◌then◌else◌, ◌&&◌}

-- The element type as memory has it: whether there is an element at an address, a read and a write of
-- host memory, the allocator "HOST", and the address of the local variable that a copy goes through.
pub record ElementMemory (E : Env) : Type 1 where
  pub Value : Type 0
  pub mapped : Pointer → E.Manager → Bool
  pub peek : Pointer → E.Manager → Value
  pub poke : Pointer → Value → E.Manager → E.Manager
  pub host : AllocatorId
  pub local : Pointer

module _ {E : Env} (V : ElementMemory E) (T : Element) where
  unfoldable pub read : Pointer → Cmd E V.Value
  read q w = if V.mapped q w.umpire then done (V.peek q w.umpire) w else fault bad_access

  unfoldable pub write : Pointer → V.Value → Cmd E (Unit {0})
  write q v w =
      if V.mapped q w.umpire
      then done tt (record w { umpire = V.poke q v w.umpire })
      else fault bad_access

  -- `m_resource_manager.copy(dst, src, sizeof(T))`, which fails where there is no memory.
  unfoldable pub copy_element : (dst src : Pointer) → Cmd E (Unit {0})
  unfolding copy_memory_bytes
  copy_element dst src w =
      if V.mapped dst w.umpire && V.mapped src w.umpire
      then copy_memory_bytes dst src T.sizeof_t w
      else fault bad_access

  -- The element is copied to a local variable, which is registered for the copy.
  unfoldable pub pick : Pointer → ℕ → Cmd E V.Value
  unfolding read register_memory copy_element deregister_memory
  pick src_ptr index = do
    register_memory V.local T.sizeof_t V.host
    copy_element V.local (advance T src_ptr index)
    deregister_memory V.local
    read V.local

  -- `val` is a reference: the value is at the caller's address.
  unfoldable pub set : Pointer → ℕ → V.Value → Cmd E (Unit {0})
  unfolding write register_memory copy_element deregister_memory
  set dst_ptr index val = do
    write V.local val
    register_memory V.local T.sizeof_t V.host
    copy_element (advance T dst_ptr index) V.local
    deregister_memory V.local
