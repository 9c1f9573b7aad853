-- ===== src/ArrayManager/Settings.antt =====
-- The array manager's execution space, default space, allocators and synchronisation state.
pub mod Effect
pub mod Sync
use chai.Base.{Bool, true, false, not, ite, if◌then◌else◌}
use chai.Space.{ExecutionSpace, gpu, space_dec, update}
use chai.Umpire.{Env, AllocatorId}
use chai.World.{World, Cmd, done, ◌>>=◌, ◌>>◌, pure, get, put, when, bind, synchronize}

module _ {E : Env} where
  unfoldable pub set_execution_space : ExecutionSpace → Cmd E (Unit {0})
  set_execution_space space = do
    ite (space_dec gpu space) (put (λ w. record w { synced_since_last_kernel = false })) (pure tt)
    put (λ w. record w { current_execution_space = space })

  unfoldable pub get_execution_space : Cmd E ExecutionSpace
  get_execution_space = do w ← get; pure w.current_execution_space

  unfoldable pub set_default_allocation_space : ExecutionSpace → Cmd E (Unit {0})
  set_default_allocation_space space = put (λ w. record w { default_allocation_space = space })

  unfoldable pub get_default_allocation_space : Cmd E ExecutionSpace
  get_default_allocation_space = do w ← get; pure w.default_allocation_space

  unfoldable pub sync_if_needed : Cmd E Bool
  unfolding synchronize
  sync_if_needed = do
    w ← get
    if w.synced_since_last_kernel
        then pure false
        else do synchronize; put (λ w'. record w' { synced_since_last_kernel = true }); pure true

  unfoldable pub enable_device_synchronize : Cmd E (Unit {0})
  enable_device_synchronize = put (λ w. record w { device_synchronize = true })

  unfoldable pub disable_device_synchronize : Cmd E (Unit {0})
  disable_device_synchronize = put (λ w. record w { device_synchronize = false })

  unfoldable pub device_synchronize : Cmd E Bool
  device_synchronize = do w ← get; pure w.device_synchronize

  -- `m_allocators[space]->getId()`
  unfoldable pub get_allocator_id : ExecutionSpace → Cmd E AllocatorId
  get_allocator_id space = do w ← get; pure (w.allocators space)

  unfoldable pub set_allocator : ExecutionSpace → AllocatorId → Cmd E (Unit {0})
  set_allocator space a = put (λ w. record w { allocators = update w.allocators space a })
