-- ===== src/Kernel/Uses.antt =====
-- Programs that use one ManagedArray in a sequence of kernels (src/util/forall.hpp), and what they
-- compute: the array's one value, whatever the spaces that the kernels run in.
use chai.Space.{ExecutionSpace, cpu}
use chai.Umpire.{Env, Pointer}
use chai.ManagedArray.Move.{copy}
use chai.ManagedArray.Handle.{Element, ManagedArray}
use chai.Base.{ℕ, ◌-◌, List, false, true, suc, ◌∷◌, ◌≡◌, ◌+◌, [], zero, ◌≢◌}
use chai.World.{Cmd, for_each, put, pure}
use chai.Kernel.{forall_sequential, forall_gpu, forall_gpu_async}

-- The tag types `sequential`, `gpu` and `gpu_async`, by which a caller picks the overload.
pub data Policy : Type 0 where
  sequential gpu gpu_async : Policy

-- The space that the overload sets.
abbrev pub policy_space : Policy → ExecutionSpace
policy_space sequential = cpu
policy_space Policy.gpu = ExecutionSpace.gpu
policy_space gpu_async = ExecutionSpace.gpu

-- `forall(policy, begin, end, body)`
unfoldable pub forall :
    {E : Env} {B : Type 0}
    → Policy
    → Cmd E B
    → (B → ℕ → Cmd E (Unit {0}))
    → (begin end : ℕ) → Cmd E (Unit {0})
forall sequential = forall_sequential
forall Policy.gpu = forall_gpu
forall gpu_async = forall_gpu_async

-- `ManagedArray<T>` and `ManagedArray<const T>`
abbrev pub mutable : Element → Element
mutable T = record T { is_const = false }

abbrev pub constant : Element → Element
constant T = record T { is_const = true }

-- One kernel: it updates the array at each index of a range, or captures it as an array of const.
pub data Use (Block : Type 0) : Type 0 where
  writes : Policy → (begin end : ℕ) → (ℕ → Block → Block) → Use Block
  reads : Policy → (begin end : ℕ) → Use Block

module _ (E : Env) {Block : Type 0} (contents : E.Manager → Pointer → Block)
    (store : Pointer → Block → E.Manager → E.Manager) where
  -- What kernels do to memory.
  pub record StoreLaws (IsLive : E.Manager → Pointer → Type 0) : Type 0 where
    pub store_to : (p : Pointer) (v : Block) (u : E.Manager) → contents (store p v u) p ≡ v
    pub store_keeps :
        (p : Pointer) (v : Block) (u : E.Manager) (q : Pointer)
        → q ≢ p
        → contents (store p v u) q ≡ contents u q
    pub store_live :
        (p : Pointer) (v : Block) (u : E.Manager) (q : Pointer)
        → IsLive u q
        → IsLive (store p v u) q

  -- The body of a kernel that updates the array through the handle that it captured.
  abbrev pub updates : (ℕ → Block → Block) → ManagedArray → ℕ → Cmd E (Unit {0})
  updates f b i = put (λ w. record w {
    umpire = store b.active_base_pointer (f i (contents w.umpire b.active_base_pointer)) w.umpire;
  })

  unfoldable pub run_use : Element → ManagedArray → Use Block → Cmd E (Unit {0})
  unfolding forall
  run_use T a (writes policy begin end f) = forall policy (copy (mutable T) a) (updates f) begin end
  run_use T a (reads policy begin end) =
      forall policy (copy (constant T) a) (λ b i. pure tt) begin end

  unfoldable pub run_uses : Element → ManagedArray → List (Use Block) → Cmd E (Unit {0})
  unfolding run_use for_each
  run_uses T a us = for_each us (run_use T a)

module _ {Block : Type 0} where
  -- The updates of `n` indices from `begin` on.
  unfoldable pub update_range : (ℕ → Block → Block) → (n begin : ℕ) → Block → Block
  update_range f zero begin v = v
  update_range f (suc n) begin v = update_range f n (begin + 1) (f begin v)

  -- The specification: an array is one value, which the kernels update in turn.
  unfoldable pub apply_use : Use Block → Block → Block
  unfolding update_range
  apply_use (writes policy begin end f) v = update_range f (end - begin) begin v
  apply_use (reads policy begin end) v = v

  unfoldable pub apply_uses : List (Use Block) → Block → Block
  unfolding apply_use
  apply_uses [] v = v
  apply_uses (use_ ∷ us) v = apply_uses us (apply_use use_ v)
