-- ===== src/ArrayManager/Settings/Effect.antt =====
-- The state after ArrayManager::setExecutionSpace.
use chai.Space.{ExecutionSpace, space_dec, gpu}
use chai.Umpire.{Env}
use chai.Base.{Bool, false, ite, ◌≡◌, arith}
use chai.ArrayManager.Settings.{set_execution_space}
use chai.World.{World, done}

-- The state of the device's synchronisation, once the execution space is set.
abbrev pub synced_for : ExecutionSpace → Bool → Bool
synced_for s b = ite (space_dec gpu s) false b

pub still_unsynced : (s : ExecutionSpace) → synced_for s false ≡ false
unfolding space_dec
still_unsynced s = ground arith

module _ {E : Env} where
  abbrev pub in_space : ExecutionSpace → World E → World E
  in_space s w = record w {
    current_execution_space = s;
    synced_since_last_kernel = synced_for s w.synced_since_last_kernel;
  }

  pub set_execution_space_lem :
      (s : ExecutionSpace) (w : World E) → set_execution_space s w ≡ done tt (in_space s w)
  unfolding set_execution_space space_dec
  set_execution_space_lem s w = ground arith
