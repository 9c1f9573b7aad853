-- ===== src/Thin/Device.antt =====
-- src/chai/ArrayManager.hpp: the wrappers round the device's runtime, with their checks of errors.
pub mod Laws
use chai.Base.{ℕ, Bool, if◌then◌else◌, ◌==◌}
use chai.Space.{Config}
use chai.Thin.Heap.{Heap, Result, pure, ◌>>=◌, ◌>>◌, done, exited}
use chai.Umpire.{Pointer}

-- A runtime, CUDA or HIP, as a parameter: its calls yield a status, which is 0 for success.
pub record Runtime (A : Type 0) : Type 0 where
  pub runtime_malloc : ℕ → Heap A → Result A (ℕ × Pointer)
  pub runtime_malloc_managed : ℕ → Heap A → Result A (ℕ × Pointer)
  pub runtime_free : Pointer → Heap A → Result A ℕ
  pub runtime_memcpy : (dst src : Pointer) → ℕ → Heap A → Result A ℕ
  pub runtime_synchronize : Heap A → Result A ℕ

-- The switches of the build, CHAI_ENABLE_GPU_ERROR_CHECKING of them, and the runtimes.
pub record Build (A : Type 0) : Type 0 where
  pub config : Config
  pub gpu_error_checking : Bool
  pub hip_runtime : Runtime A
  pub cuda_runtime : Runtime A

module _ {A : Type 0} (B : Build A) where
  -- `gpuErrorCheck(code, file, line, true)`, which prints the error and exits.
  unfoldable pub gpu_error_check : ℕ → Heap A → Result A (Unit {0})
  gpu_error_check code h = if code == 0 then done tt h else exited code

  -- `CHAI_GPU_ERROR_CHECK(call)`
  unfoldable pub checked : (Heap A → Result A ℕ) → Heap A → Result A (Unit {0})
  unfolding gpu_error_check
  checked call =
      if B.gpu_error_checking then call >>= gpu_error_check else call >>= (λ code. pure tt)

  -- The call of the build's runtime: HIP's where the build has it, and CUDA's if not.
  unfoldable pub on_runtime : (Runtime A → Heap A → Result A ℕ) → Heap A → Result A (Unit {0})
  unfolding checked
  on_runtime call =
      if B.config.hip
      then checked (call B.hip_runtime)
      else if B.config.cuda
      then checked (call B.cuda_runtime)
      else pure tt

  -- The check of a status, and then the address that the call wrote to `*devPtr`.
  unfoldable pub address_of : (ℕ × Pointer) → Heap A → Result A Pointer
  unfolding gpu_error_check
  address_of (code, p) = if B.gpu_error_checking then gpu_error_check code >> pure p else pure p

  unfoldable pub allocate_on :
      (Runtime A → Heap A → Result A (ℕ × Pointer))
      → (dev_ptr : Pointer) → Heap A
      → Result A Pointer
  unfolding address_of
  allocate_on call dev_ptr =
      if B.config.hip
      then call B.hip_runtime >>= address_of
      else if B.config.cuda
      then call B.cuda_runtime >>= address_of
      else pure dev_ptr

  unfoldable pub synchronize : Heap A → Result A (Unit {0})
  unfolding on_runtime
  synchronize = on_runtime (λ r. r.runtime_synchronize)

  unfoldable pub gpu_free : Pointer → Heap A → Result A (Unit {0})
  unfolding on_runtime
  gpu_free buffer = on_runtime (λ r. r.runtime_free buffer)

  unfoldable pub gpu_malloc : (dev_ptr : Pointer) → ℕ → Heap A → Result A Pointer
  unfolding allocate_on
  gpu_malloc dev_ptr size = allocate_on (λ r. r.runtime_malloc size) dev_ptr

  unfoldable pub gpu_malloc_managed : (dev_ptr : Pointer) → ℕ → Heap A → Result A Pointer
  unfolding allocate_on
  gpu_malloc_managed dev_ptr size = allocate_on (λ r. r.runtime_malloc_managed size) dev_ptr

  unfoldable pub gpu_memcpy : (dst src : Pointer) → ℕ → Heap A → Result A (Unit {0})
  unfolding on_runtime
  gpu_memcpy dst src count = on_runtime (λ r. r.runtime_memcpy dst src count)
