-- ===== src/ArrayManager/Settings/Sync.antt =====
-- ArrayManager::syncIfNeeded between kernels.
use chai.ArrayManager.Settings.{sync_if_needed, set_execution_space}
use chai.Space.{space_dec, gpu}
use chai.Umpire.{Env}
use chai.World.{World, done, synchronized}
use chai.Base.{◌≡◌, not, false, if◌then◌else◌, ◌∷◌, Bool-cases, inl, arith, inr, true, refl}

-- One synchronize serves until the next kernel: the first call waits for the device just if no call
-- has since the last kernel, a second one does not wait, and setting the execution space to GPU makes
-- the next call wait again.
pub sync_if_needed-once :
    {E : Env} (w : World E)
    → (w' : World E) × (sync_if_needed w ≡ done (not w.synced_since_last_kernel) w')
      × (sync_if_needed w' ≡ done false w')
      × (w'.calls ≡ (if w.synced_since_last_kernel then w.calls else synchronized ∷ w.calls))
      × ((w'' : World E) × (set_execution_space gpu w' ≡ done tt w'')
          × (w''.synced_since_last_kernel ≡ false))
unfolding sync_if_needed set_execution_space space_dec
sync_if_needed-once w = elim (Bool-cases w.synced_since_last_kernel) [
  | inl b ↦ (w, ground arith, ground arith, ground arith, (_, refl, refl))
  | inr b ↦ (
    record w { umpire = w.umpire; calls = synchronized ∷ w.calls; synced_since_last_kernel = true },
    ground arith,
    ground arith,
    ground arith,
    (_, refl, refl),
  )
]
