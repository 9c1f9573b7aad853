-- ===== src/Tests/Uses.antt =====
-- Programs of kernels on the array of `start`, and on a new one.
use chai.Umpire.{Pointer}
use chai.Kernel.Uses.{
  StoreLaws, apply_uses, Use, apply_use, reads, update_range, gpu_async, run_uses, writes,
  sequential, Policy, policy_space,
}
use chai.Space.{cpu}
use chai.Base.{ℕ, List, ◌+◌, if◌then◌else◌, ◌==◌, arith, ◌∷◌, refl, [], ◌≡◌}
use chai.Umpire.Concrete.{Memory, block_of, IsLive, concrete-MapLaws}
use chai.Tests.Moves.{laws, start-IsReady}
use chai.Tests.Worlds.{start, simulated, env}
use chai.World.{World, done, ignore}
use chai.ManagedArray.Handle.{ManagedArray, empty_array, Element}
use chai.Tests.Arrays.{four_bytes}
use chai.ManagedArray.Move.{copy}
use chai.ArrayManager.Settings.Effect.{in_space}
use chai.Kernel.Fresh.{allocate-run_uses}
use chai.ManagedArray.Allocate.{allocate}

abbrev pub store_block : Pointer → ℕ → Memory → Memory
store_block p v u = record u { block = λ q. if q == p then v else u.block q }

pub store_block-laws : StoreLaws env block_of store_block IsLive
store_block-laws = record {
  store_to = λ p v u. ground arith;
  store_keeps = λ p v u q other. ground arith;
  store_live = λ p v u q l. l;
}

-- Each index is added to the block.
abbrev add_index : ℕ → ℕ → ℕ
add_index i v = v + i

-- A kernel of const on the GPU, then an update there, one on the CPU, and a kernel of const there.
abbrev program : List (Use ℕ)
program =
    reads gpu_async 0 4
    ∷ writes gpu_async 0 4 add_index
    ∷ writes sequential 1 3 add_index
    ∷ reads sequential 0 4
    ∷ []

allocate-run_uses_example :
    (a : ManagedArray) × (w1 : World env) × (w2 : World env) × (v : ℕ) × (allocate four_bytes
        empty_array 6 cpu ignore start
      ≡ done a w1)
    × (run_uses env block_of store_block four_bytes a (writes gpu_async 0 6 (λ i u. 5) ∷ program) w1
        ≡ done tt w2)
    × ((last : Policy) (U : Element)
        → (b : ManagedArray) × (w3 : World env) × (copy U a (in_space (policy_space last) w2)
            ≡ done b w3)
          × (w3.umpire.block b.active_base_pointer ≡ 14))
unfolding apply_uses apply_use update_range
allocate-run_uses_example =
    allocate-run_uses laws store_block-laws refl (concrete-MapLaws simulated) four_bytes start 6 cpu
      ignore (omega arith) (λ e. cc) (λ e. cc) (λ e. cc) start-IsReady (omega arith) gpu_async 0 6
      (λ i u. 5) program
