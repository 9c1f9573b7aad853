-- ===== src/ManagedPtr/Make.antt =====
-- make_on_host, make_on_device, make_managed and the pointer casts.
pub mod Space
use chai.Base.{if◌then◌else◌, some, ◌+◌, ◌∷◌, [], ◌==◌}
use chai.ManagedPtr.Host.{
  ◌>>=◌, ◌>>◌, pure, get, Cmd, when, note, manager, Program, created, waited, unset,
}
use chai.ManagedPtr.Handle.{ManagedPtr, get_host, of_pointers, alias, pointer_in}
use chai.Space.{ExecutionSpace, cpu, gpu}
use chai.Umpire.{Pointer, nullptr}
use chai.ArrayManager.Settings.{get_execution_space, set_execution_space}

module _ {P : Program} where
  -- `new T(…)`, where the execution space is.
  unfoldable pub create : ExecutionSpace → Cmd P Pointer
  create s h = some (
    P.new_object s h.objects,
    record h { objects = h.objects + 1; log = created s (P.new_object s h.objects) ∷ h.log },
  )

  -- make_on_host and make_on_host_from_factory: the execution space is CPU meanwhile.
  unfoldable pub make_on_host : Cmd P Pointer
  unfolding create manager
  make_on_host = do
    current ← manager get_execution_space
    manager (set_execution_space cpu)
    q ← create cpu
    manager (set_execution_space current)
    pure q

  -- `if (deviceSynchronize()) synchronize()`
  unfoldable pub wait_for_device : Cmd P (Unit {0})
  wait_for_device = do h ← get; when h.manager.device_synchronize (note waited)

  -- make_on_device and make_on_device_from_factory.
  unfoldable pub make_on_device : Cmd P Pointer
  unfolding create manager
  make_on_device = do
    current ← manager get_execution_space
    manager (set_execution_space gpu)
    q ← create gpu
    wait_for_device
    manager (set_execution_space current)
    pure q

  -- make_managed and make_managed_from_factory.
  unfoldable pub make_managed : Cmd P ManagedPtr
  make_managed =
      if P.gpucc
      then (do
        g ← make_on_device
        c ← make_on_host
        of_pointers (cpu ∷ gpu ∷ []) (c ∷ g ∷ []) unset)
      else (do c ← make_on_host; of_pointers (cpu ∷ []) (c ∷ []) unset)

  -- static_pointer_cast, const_pointer_cast and reinterpret_pointer_cast, which keep the addresses.
  unfoldable pub pointer_cast : ManagedPtr → Cmd P ManagedPtr
  pointer_cast other = do
    c ← get_host other
    if P.gpucc
        then alias other (cpu ∷ gpu ∷ []) (c ∷ pointer_in P other gpu ∷ [])
        else alias other (cpu ∷ []) (c ∷ [])

  -- `dynamic_cast<T*>` of a host pointer is a parameter: it yields the pointer or nullptr.
  unfoldable pub dynamic_pointer_cast : (Pointer → Pointer) → ManagedPtr → Cmd P ManagedPtr
  dynamic_pointer_cast cast other = do
    c ← get_host other
    if P.gpucc
        then alias other (cpu ∷ gpu ∷ [])
            (cast c ∷ (if cast c == nullptr then nullptr else pointer_in P other gpu) ∷ [])
        else alias other (cpu ∷ []) (cast c ∷ [])
