-- ===== src/Tests/Kernels.antt =====
-- A kernel that captures the array of `start`, and reallocations of that array.
use chai.ManagedArray.Handle.{ManagedArray, empty_array}
use chai.World.{World, PointerRecord, Cmd, done, deallocated, copied_bytes, ◌>>◌, allocated}
use chai.Space.{space_dec, ExecutionSpace, update, cpu, gpu}
use chai.Base.{ℕ, ◌≡◌, ◌≢◌, some, ◌+◌, none, inl, arith, ◌∷◌, [], refl}
use chai.Tests.Worlds.{env, written, start, simulated}
use chai.ArrayManager.Reallocate.{reallocate}
use chai.Kernel.{forall_gpu_async, forall_kernel_cpu}
use chai.ArrayManager.Settings.{set_allocator, set_execution_space}
use chai.ManagedArray.Move.{copy}
use chai.Umpire.{nullptr}
use chai.Tests.Arrays.{four_bytes}
use chai.ManagedArray.Move.Coherence.{pointed}
use chai.Kernel.Capture.{forall_gpu_async-contents}
use chai.Tests.Moves.{laws, start-IsReady, written-Latest, written-IsMovable}
use chai.ArrayManager.Reallocate.Host.{reallocate-cpu}
use chai.Umpire.Concrete.{concrete-MapLaws}

-- The array of `start`, as its handle.
abbrev pub two : ManagedArray
two = record empty_array {
  active_pointer = 1;
  active_base_pointer = 1;
  elems = 2;
  pointer_record = 2;
}

-- A body that makes its element's address the allocator of the CPU.
abbrev note_address : ManagedArray → ℕ → Cmd env (Unit {0})
note_address a i = set_allocator cpu (a.active_pointer + i)

forall_gpu_async-contents_example :
    (w' : World env) × (p' : PointerRecord) × (forall_gpu_async
        (copy four_bytes two)
        note_address
        0
        2
        start
      ≡ (forall_kernel_cpu 2 0 (note_address (pointed four_bytes two (p'.pointers gpu)))
            >> set_execution_space ExecutionSpace.none)
          w')
    × (w'.umpire.block (p'.pointers gpu) ≡ 42)
    × (w'.heap 2 ≡ some p')
    × (p'.last_space ≡ gpu)
forall_gpu_async-contents_example =
    forall_gpu_async-contents laws four_bytes two note_address 0 2 (concrete-MapLaws simulated)
      start-IsReady written-Latest written-IsMovable (inl (λ e. omega arith))

written-alone : (s : ExecutionSpace) → s ≢ cpu → written.pointers s ≡ nullptr
unfolding space_dec
written-alone s h = ground arith

reallocate-cpu_example :
    (w' : World env) × (reallocate 4 1 5 2 start ≡ done 2 w')
    × (w'.heap 2 ≡ some (record written { size = 20; pointers = update written.pointers cpu 2 }))
    × (w'.calls ≡ deallocated 0 1 ∷ copied_bytes 2 1 8 ∷ allocated 0 20 2 ∷ [])
    × (env.find 2 w'.pointer_map ≡ some 2)
    × (env.find 1 w'.pointer_map ≡ none)
unfolding space_dec
reallocate-cpu_example =
    reallocate-cpu laws (concrete-MapLaws simulated) start 2 written 4 5 (λ e. omega arith) refl
      (λ e. omega arith) start-IsReady (omega arith) (λ s. refl) written-alone
