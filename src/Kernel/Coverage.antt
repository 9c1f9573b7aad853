-- ===== src/Kernel/Coverage.antt =====
-- The kernel of the GPU, its threads in order, does what the loop of the CPU does.
use chai.Base.{ℕ, zero, suc, ◌≤◌, ◌≡◌, ◌+◌, arith, refl, ltb, true, ◌-◌, Bool-cases, inl, inr, ◌*◌}
use chai.World.{World, Cmd, done, Run, bind, fault, for_each}
use chai.Umpire.{Env}
use chai.Kernel.{
  forall_kernel_gpu, forall_kernel_cpu, launch, grid_size, block_size, kernel_thread, thread_range,
}

pub bind-ext :
    {E : Env} {A B : Type 0} (run : Run E A) {k k' : A → World E → Run E B}
    → ((a : A) (w : World E) → k a w ≡ k' a w)
    → bind run k ≡ bind run k'
bind-ext (done a w) h = h a w
bind-ext (fault f) h = refl

module _ {E : Env} (start length : ℕ) (body : ℕ → Cmd E (Unit {0})) where
  kernels_past_end :
      (threads idx : ℕ) (w : World E)
      → length ≤ idx
      → forall_kernel_gpu (thread_range threads idx) start length body w ≡ done tt w
  unfolding forall_kernel_gpu kernel_thread for_each thread_range
  kernels_past_end zero idx w h = refl
  kernels_past_end (suc threads) idx w h = ground (arith, kernels_past_end threads (idx + 1) w)

  -- The threads from `idx` on, of which `n` have an element.
  kernels_from :
      (n threads idx i : ℕ) (w : World E)
      → i ≡ idx + start
      → idx + n ≡ length
      → n ≤ threads
      → forall_kernel_gpu (thread_range threads idx) start length body w
        ≡ forall_kernel_cpu n i body w
  unfolding forall_kernel_gpu kernel_thread for_each thread_range forall_kernel_cpu
  kernels_from zero threads idx i w e h k = kernels_past_end threads idx w (omega arith)
  kernels_from (suc n) zero idx i w e h k = absurd (omega arith)
  kernels_from (suc n) (suc threads) idx i w e h k =
      let in_range : ltb idx length ≡ true = ground arith in
      rw (in_range, e)
        (bind-ext (body (idx + start) w) (λ _ w'.
          kernels_from n threads (idx + 1) (idx + start + 1) w' (omega arith) (omega arith)
            (omega arith)))

-- The launch, whose threads run in the order of their indices, does what the loop of the CPU does.
pub launch-forall_kernel_cpu :
    {E : Env} {B : Type 0} (capture : Cmd E B) (body : B → ℕ → Cmd E (Unit {0})) (begin end : ℕ)
    (b : B) (w : World E)
    → launch capture body begin end b w ≡ forall_kernel_cpu (end - begin) begin (body b) w
unfolding launch
launch-forall_kernel_cpu {E} capture body begin end b w =
    elim (Bool-cases E.config.gpu_simulation) [
      | inl simulated ↦ rw simulated
      | inr device ↦ rw device (
          kernels_from begin (end - begin) (body b) (end - begin) (grid_size begin end * block_size)
            0 begin w (omega arith) (omega arith) (omega arith))
    ]
