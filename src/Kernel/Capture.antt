-- ===== src/Kernel/Capture.antt =====
-- A kernel on the GPU that captures a ManagedArray (src/util/forall.hpp and the copy constructor of
-- src/chai/ManagedArray.inl).
use chai.ManagedArray.Handle.{Element, ManagedArray}
use chai.Umpire.{Env, Pointer, ManagerLaws, nullptr, MapLaws}
use chai.ManagedArray.Move.{copy}
use chai.World.{PointerRecord, World, Cmd, ◌>>◌}
use chai.Base.{if◌then◌else◌, ℕ, ◌≢◌, ◌⊎◌, ◌<◌, ◌≡◌, some, ◌-◌, not, arith}
use chai.ArrayManager.Move.Coherence.{Latest, IsReady, IsMovable}
use chai.Kernel.{forall_gpu_async, forall_kernel_cpu}
use chai.ArrayManager.Settings.Effect.{in_space, set_execution_space_lem}
use chai.ArrayManager.Settings.{set_execution_space}
use chai.Space.{gpu, ExecutionSpace}
use chai.ManagedArray.Move.Coherence.{pointed, move-contents, recounted, copy-move}
use chai.Kernel.Coverage.{launch-forall_kernel_cpu}

module _ {E : Env} {Block : Type 0} {contents : E.Manager → Pointer → Block}
    {IsLive : E.Manager → Pointer → Type 0} (laws : ManagerLaws E Block contents IsLive)
    (T : Element) (a : ManagedArray) {w : World E} {p : PointerRecord} {v : Block} where
  in_gpu-Latest :
      Latest laws w a.pointer_record p v → Latest laws (in_space gpu w) a.pointer_record p v
  in_gpu-Latest l = record {
    real = l.real;
    own = l.own;
    at = l.at;
    spaced = l.spaced;
    touched = l.touched;
    here = l.here;
    value = l.value;
    live = l.live;
  }

  -- A kernel on the GPU that captures an array runs its body for each index of the range once, in
  -- order where the threads run in that of their indices, on a handle whose base is the record's pointer on the GPU, where the bytes last written
  -- are, and sets the execution space back to NONE. An array of non-const elements is then marked as
  -- last touched there. The array is not empty, its record has the value where it was last touched and
  -- its memory is not in UM or PINNED of a build with that, the mutex is free, the map holds live
  -- pointers only, and the resource manager and the map meet their laws.
  pub forall_gpu_async-contents :
      (body : ManagedArray → ℕ → Cmd E (Unit {0})) (begin end : ℕ)
      → MapLaws E
      → IsReady laws w
      → Latest laws w a.pointer_record p v
      → IsMovable E.config p
      → (a.active_base_pointer ≢ nullptr) ⊎ (0 < a.elems)
      → (w' : World E) × (p' : PointerRecord) × (forall_gpu_async (copy T a) body begin end w
          ≡ (forall_kernel_cpu
                  (end - begin)
                  begin
                  (body (pointed T (recounted T a p) (p'.pointers gpu)))
                >> set_execution_space ExecutionSpace.none)
              w')
        × (contents w'.umpire (p'.pointers gpu) ≡ v)
        × (w'.heap a.pointer_record ≡ some p')
        × (p'.last_space ≡ (if not T.is_const then gpu else p.last_space))
  unfolding forall_gpu_async
  forall_gpu_async-contents body begin end map ready latest movable filled =
      let (w', p', runs, value, at, last) =
        move-contents laws T (recounted T a p) gpu (not T.is_const) map
          (record { unlocked = ready.unlocked; map_live = ready.map_live }) (in_gpu-Latest latest)
          (λ e. cc) movable in
      (
        w',
        p',
        ground (
          arith,
          set_execution_space_lem gpu w,
          copy-move T a (in_space gpu w) p filled latest.real latest.at,
          runs,
          launch-forall_kernel_cpu (copy T a) body begin end
              (pointed T (recounted T a p) (p'.pointers gpu)) w',
        ),
        value,
        at,
        last,
      )
