-- ===== src/Kernel/Launched.antt =====
-- The worlds that a call of forall (src/util/forall.hpp) captures in and ends in.

use chai.Umpire.{Env, Pointer, ManagerLaws, RecordPointer}
use chai.Kernel.Uses.{Policy, forall, sequential, gpu_async, policy_space}
use chai.World.{Cmd, World, synchronized, synchronize, done, PointerRecord}
use chai.Base.{ℕ, if◌then◌else◌, ◌≡◌, ◌-◌, Bool-cases, inl, arith, inr, refl, true, ◌∷◌, Bool, not}
use chai.ArrayManager.Settings.Effect.{in_space, set_execution_space_lem}
use chai.Space.{cpu, ExecutionSpace}
use chai.Kernel.{forall_sequential, forall_gpu, forall_gpu_async, forall_kernel_cpu}
use chai.Kernel.Coverage.{launch-forall_kernel_cpu}
use chai.ArrayManager.Move.Settled.{InUse, IsCoherent}

-- The world after a wait for the device, where the build has one.
abbrev waited : {E : Env} → Bool → World E → World E
waited b w = record w { calls = if b then synchronized ∷ w.calls else w.calls }

-- The world that an overload of forall captures in, and the one that it ends in.
abbrev pub entered : {E : Env} → Policy → World E → World E
entered {E} sequential w = in_space cpu (waited E.config.um w)
entered Policy.gpu w = in_space ExecutionSpace.gpu w
entered gpu_async w = in_space ExecutionSpace.gpu w

abbrev pub left : {E : Env} → Policy → World E → World E
left sequential w = in_space ExecutionSpace.none w
left {E} Policy.gpu w = in_space ExecutionSpace.none (waited (not E.config.gpu_simulation) w)
left gpu_async w = in_space ExecutionSpace.none w

module _ {E : Env} {B : Type 0} (capture : Cmd E B) (body : B → ℕ → Cmd E (Unit {0}))
    (begin end : ℕ) (w : World E) {b : B} {w1 w2 : World E} where
  -- A call of forall is the capture and the loop over the range, between the two settings of the
  -- space.
  pub forall_lem :
      (policy : Policy)
      → capture (entered policy w) ≡ done b w1
      → forall_kernel_cpu (end - begin) begin (body b) w1 ≡ done tt w2
      → forall policy capture body begin end w ≡ done tt (left policy w2)
  unfolding forall forall_sequential forall_gpu forall_gpu_async synchronize
  forall_lem sequential c l = elim (Bool-cases E.config.um) [
    | inl on ↦ ground (
      arith,
      set_execution_space_lem cpu (waited true w),
      set_execution_space_lem ExecutionSpace.none w2,
    )
    | inr off ↦
        ground
          (arith, set_execution_space_lem cpu w, set_execution_space_lem ExecutionSpace.none w2)
  ]
  forall_lem Policy.gpu c l = elim (Bool-cases E.config.gpu_simulation) [
    | inl on ↦ ground (
      arith,
      set_execution_space_lem ExecutionSpace.gpu w,
      launch-forall_kernel_cpu capture body begin end b w1,
      set_execution_space_lem ExecutionSpace.none w2,
    )
    | inr off ↦ ground (
      arith,
      set_execution_space_lem ExecutionSpace.gpu w,
      launch-forall_kernel_cpu capture body begin end b w1,
      set_execution_space_lem ExecutionSpace.none (waited true w2),
    )
  ]
  forall_lem gpu_async c l = ground (
    arith,
    set_execution_space_lem ExecutionSpace.gpu w,
    launch-forall_kernel_cpu capture body begin end b w1,
    set_execution_space_lem ExecutionSpace.none w2,
  )

pub policy_space-InUse : (policy : Policy) → InUse (policy_space policy)
policy_space-InUse sequential = inl refl
policy_space-InUse Policy.gpu = inr refl
policy_space-InUse gpu_async = inr refl

pub entered-InUse :
    {E : Env} (policy : Policy) (w : World E) → InUse (entered policy w).current_execution_space
entered-InUse sequential w = inl refl
entered-InUse Policy.gpu w = inr refl
entered-InUse gpu_async w = inr refl

module _ {E : Env} {Block : Type 0} {contents : E.Manager → Pointer → Block}
    {IsLive : E.Manager → Pointer → Type 0} {laws : ManagerLaws E Block contents IsLive}
    (w : World E) {r : RecordPointer} {p : PointerRecord} {v : Block} where
  pub entered-Coherent :
      (policy : Policy) → IsCoherent laws w r p v → IsCoherent laws (entered policy w) r p v
  entered-Coherent sequential c = c
  entered-Coherent Policy.gpu c = c
  entered-Coherent gpu_async c = c

  pub left-Coherent :
      (policy : Policy) → IsCoherent laws w r p v → IsCoherent laws (left policy w) r p v
  left-Coherent sequential c = c
  left-Coherent Policy.gpu c = c
  left-Coherent gpu_async c = c
