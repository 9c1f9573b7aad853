-- ===== src/Kernel.antt =====
-- src/util/forall.hpp and src/chai/RajaExecutionSpacePlugin.cpp: kernels, and the execution space that
-- is set round their captures. A loop body is copied into the kernel, which copies the arrays that it
-- captures: `capture` is that copy, and yields what the body then works with.
pub mod Coverage
pub mod Threads
pub mod Capture
pub mod Uses
pub mod Launched
pub mod Refines
pub mod Fresh
pub mod Programs
use chai.Base.{List, [], ◌∷◌, ℕ, zero, suc, ◌-◌, ◌+◌, if◌then◌else◌, ◌/◌, ◌*◌, ltb, not}
use chai.World.{for_each, World, Cmd, ◌>>=◌, ◌>>◌, done, synchronize, bind, when}
use chai.Umpire.{Env}
use chai.ArrayManager.Settings.{set_execution_space}
use chai.Space.{cpu, gpu, ExecutionSpace}

-- `RAJA::Platform`
pub data Platform : Type 0 where
  host cuda_device other_platform : Platform

abbrev pub block_size : ℕ
block_size = 32

-- `(end - begin + blockSize - 1) / blockSize`
abbrev pub grid_size : (begin end : ℕ) → ℕ
grid_size begin end = (end - begin + block_size - 1) / block_size

-- `n` threads of a grid, from `idx` on.
unfoldable pub thread_range : (n idx : ℕ) → List ℕ
thread_range zero idx = []
thread_range (suc n) idx = idx ∷ thread_range n (idx + 1)

module _ {E : Env} where
  unfoldable pub pre_capture : Platform → Cmd E (Unit {0})
  pre_capture host = set_execution_space cpu
  pre_capture cuda_device =
      if E.config.cuda then set_execution_space gpu else set_execution_space ExecutionSpace.none
  pre_capture other_platform = set_execution_space ExecutionSpace.none

  unfoldable pub post_capture : Cmd E (Unit {0})
  post_capture = set_execution_space ExecutionSpace.none

  -- `for (int i = begin; i < begin + n; ++i) body(i)`
  unfoldable pub forall_kernel_cpu : (n begin : ℕ) → (ℕ → Cmd E (Unit {0})) → Cmd E (Unit {0})
  forall_kernel_cpu zero begin body w = done tt w
  forall_kernel_cpu (suc n) begin body w =
      bind (body begin w) (λ _. forall_kernel_cpu n (begin + 1) body)

  -- One thread of the kernel, of index `idx` in the grid: it does nothing past the end.
  unfoldable pub kernel_thread : (start length : ℕ) → (ℕ → Cmd E (Unit {0})) → ℕ → Cmd E (Unit {0})
  kernel_thread start length body idx w = if ltb idx length then body (idx + start) w else done tt w

  -- The kernel, whose threads run in the order of the list.
  unfoldable pub forall_kernel_gpu :
      (threads : List ℕ) → (start length : ℕ) → (ℕ → Cmd E (Unit {0})) → Cmd E (Unit {0})
  unfolding for_each kernel_thread
  forall_kernel_gpu threads start length body = for_each threads (kernel_thread start length body)

module _ {E : Env} {B : Type 0} (capture : Cmd E B) (body : B → ℕ → Cmd E (Unit {0})) where
  -- `forall(sequential, begin, end, body)`
  unfoldable pub forall_sequential : (begin end : ℕ) → Cmd E (Unit {0})
  unfolding synchronize
  forall_sequential begin end = do
    when E.config.um synchronize
    set_execution_space cpu
    b ← capture
    forall_kernel_cpu (end - begin) begin (body b)
    set_execution_space ExecutionSpace.none

  -- The launch: on the host where the GPU is simulated. A device may run the grid's threads in any
  -- order; here they run in that of their indices.
  unfoldable pub launch : (begin end : ℕ) → B → Cmd E (Unit {0})
  launch begin end b =
      if E.config.gpu_simulation
      then forall_kernel_cpu (end - begin) begin (body b)
      else forall_kernel_gpu (thread_range (grid_size begin end * block_size) 0) begin (end - begin)
          (body b)

  -- `forall(gpu_async, begin, end, body)`
  unfoldable pub forall_gpu_async : (begin end : ℕ) → Cmd E (Unit {0})
  forall_gpu_async begin end = do
    set_execution_space gpu
    b ← capture
    launch begin end b
    set_execution_space ExecutionSpace.none

  -- `forall(gpu, begin, end, body)`, which waits for the device.
  unfoldable pub forall_gpu : (begin end : ℕ) → Cmd E (Unit {0})
  unfolding synchronize
  forall_gpu begin end = do
    set_execution_space gpu
    b ← capture
    launch begin end b
    when (not E.config.gpu_simulation) synchronize
    set_execution_space ExecutionSpace.none
