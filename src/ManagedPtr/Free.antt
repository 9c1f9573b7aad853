-- ===== src/ManagedPtr/Free.antt =====
-- managed_ptr::free.
pub mod Once
use chai.World.{free}
use chai.Base.{none, reverse, ℕ, if◌then◌else◌, not, List, ◌==◌, some, ◌&&◌, ◌∷◌, []}
use chai.ManagedPtr.Host.{
  unset, set, ◌>>=◌, ◌>>◌, pure, get, load, Cmd, when, delete, note, told, Program, PtrCallback,
  destroyed, set, waited,
}
use chai.ManagedPtr.Handle.{ManagedPtr, pointer_in}
use chai.Umpire.{Pointer, nullptr}
use chai.Space.{ExecutionSpace, cpu, gpu, all_spaces}

module _ {P : Program} where
  -- `delete pointer`, which does nothing to nullptr.
  unfoldable pub delete_object : Pointer → Cmd P (Unit {0})
  delete_object q = when (not (q == nullptr)) (note (destroyed cpu q))

  -- The kernel that deletes the device's object.
  unfoldable pub destroy_on_device : Pointer → Cmd P (Unit {0})
  destroy_on_device q = do
    note (destroyed gpu q)
    h ← get
    when h.manager.device_synchronize (note waited)

  -- `switch (execSpace) …`
  unfoldable pub destroy_in : ManagedPtr → ExecutionSpace → Cmd P ManagedPtr
  destroy_in m cpu = do delete_object m.cpu_pointer; pure (record m { cpu_pointer = nullptr })
  destroy_in m gpu =
      if P.gpucc && not (m.gpu_pointer == nullptr)
      then (do destroy_on_device m.gpu_pointer; pure (record m { gpu_pointer = nullptr }))
      else pure m
  destroy_in m _ = pure m

  -- With a callback, an object is destroyed only where the callback has not handled it.
  unfoldable pub offer : ℕ → ManagedPtr → ExecutionSpace → Cmd P ManagedPtr
  offer n m s = do
    note (told n free s (pointer_in P m s))
    if P.answer n free s (pointer_in P m s) then pure m else destroy_in m s

  unfoldable pub free_space : PtrCallback → ManagedPtr → ExecutionSpace → Cmd P ManagedPtr
  free_space unset m s = destroy_in m s
  free_space (set n) m s = offer n m s

  unfoldable pub free_spaces : PtrCallback → ManagedPtr → List ExecutionSpace → Cmd P ManagedPtr
  free_spaces c m [] h = some (m, h)
  free_spaces c m (s ∷ ss) h = elim (free_space c m s h) [
    | none ↦ none
    | some (m', h') ↦ free_spaces c m' ss h'
  ]

  -- From the last space down to NONE: the device's object goes first.
  unfoldable pub free_ptr : ManagedPtr → Cmd P ManagedPtr
  unfolding load delete
  free_ptr m = if m.pointer_record == nullptr then pure m else do
    p ← load m.pointer_record
    m' ← free_spaces p.callback m (reverse (all_spaces P.env.config))
    delete m.pointer_record
    pure (record m' { pointer_record = nullptr })
