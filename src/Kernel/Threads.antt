-- ===== src/Kernel/Threads.antt =====
-- The threads of the GPU's kernel, in any order.
use chai.Base.{
  ℕ, List, [], ◌∷◌, ◌≡◌, ◌+◌, ◌-◌, ◌*◌, ◌<◌, ltb, leb, ◌==◌, ◌&&◌, if◌then◌else◌, arith, refl,
  Bool-cases, inl, inr,
}
use chai.World.{World, Cmd, for_each}
use chai.Umpire.{Env}
use chai.Kernel.{forall_kernel_gpu, kernel_thread, grid_size, block_size}
use chai.Kernel.Coverage.{bind-ext}

-- How often a number is in a list.
abbrev pub count : ℕ → List ℕ → ℕ
count i [] = 0
count i (x ∷ xs) = (if i == x then 1 else 0) + count i xs

-- The indices that the threads run the body for.
abbrev reached : (start length : ℕ) → List ℕ → List ℕ
reached start length [] = []
reached start length (t ∷ ts) =
    if ltb t length then (t + start) ∷ reached start length ts else reached start length ts

reached-count :
    (start length i : ℕ) (ts : List ℕ)
    → count i (reached start length ts)
      ≡ (if leb start i && ltb i (start + length) then count (i - start) ts else 0)
reached-count start length i [] = ground arith
reached-count start length i (t ∷ ts) =
    let rest = reached-count start length i ts in
    elim (Bool-cases (ltb t length)) [
      | inl runs ↦ ground (arith, rest)
      | inr idle ↦ ground (arith, rest)
    ]

reached-runs :
    {E : Env} (start length : ℕ) (body : ℕ → Cmd E (Unit {0})) (ts : List ℕ) (w : World E)
    → forall_kernel_gpu ts start length body w ≡ for_each (reached start length ts) body w
unfolding forall_kernel_gpu kernel_thread for_each
reached-runs start length body [] w = refl
reached-runs start length body (t ∷ ts) w = elim (Bool-cases (ltb t length)) [
  | inl runs ↦
      rw runs (bind-ext (body (t + start) w) (λ _ w'. reached-runs start length body ts w'))
  | inr idle ↦ rw idle (reached-runs start length body ts w)
]

-- In whatever order a device runs the threads of the kernel's grid one after another, each once, the
-- body is run for each index of the range exactly once and for no other index: the grid's blocks of
-- 32 threads reach the end, and the threads past it do nothing.
pub forall_kernel_gpu-once :
    {E : Env} (begin end : ℕ) (threads : List ℕ)
    → ((t : ℕ) → t < grid_size begin end * block_size → count t threads ≡ 1)
    → (indices : List ℕ) × ((body : ℕ → Cmd E (Unit {0})) (w : World E)
        → forall_kernel_gpu threads begin (end - begin) body w ≡ for_each indices body w)
      × ((i : ℕ) → count i indices ≡ (if leb begin i && ltb i end then 1 else 0))
forall_kernel_gpu-once begin end threads each = (
  reached begin (end - begin) threads,
  λ body w. reached-runs begin (end - begin) body threads w,
  λ i. elim (Bool-cases (leb begin i && ltb i end)) [
    | inl inside ↦
        let there : i - begin < grid_size begin end * block_size = ground arith in
        ground (arith, reached-count begin (end - begin) i threads, each (i - begin) there)
    | inr outside ↦ ground (arith, reached-count begin (end - begin) i threads)
  ],
)
