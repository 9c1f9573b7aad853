-- ===== src/Kernel/Programs.antt =====
-- Programs of kernels over several ManagedArrays (src/util/forall.hpp), and what they compute: one
-- value for each array, whatever the spaces that the kernels run in.
pub mod Family
pub mod Loop
pub mod Captures
pub mod Refines
use chai.Kernel.Uses.{Policy, forall, constant, mutable}
use chai.Umpire.{Env, Pointer}
use chai.Base.{ℕ, List, if◌then◌else◌, ◌-◌, suc, ◌∷◌, ◌==◌, ◌+◌, [], zero, ite}
use chai.ManagedArray.Handle.{Element, ManagedArray}
use chai.World.{Cmd, for_each, put, ◌>>=◌, pure}
use chai.ManagedArray.Move.{copy}

-- A kernel that captures two of the arrays that `I` names: at each index of a range, it updates one, the target, from both.
pub record Kernel (I Block : Type 0) : Type 0 where
  pub policy : Policy
  pub begin : ℕ
  pub end : ℕ
  pub source : I
  pub target : I
  pub combine : ℕ → Block → Block → Block

module _ (E : Env) {Block : Type 0} (contents : E.Manager → Pointer → Block)
    (store : Pointer → Block → E.Manager → E.Manager) {I : Type 0} (T : I → Element)
    (arrays : I → ManagedArray) where
  -- The copies that the lambda holds: the source is an array of const.
  unfoldable pub capture_both : (source target : I) → Cmd E (ManagedArray × ManagedArray)
  capture_both source target = do
    c ← copy (constant (T source)) (arrays source)
    b ← copy (mutable (T target)) (arrays target)
    pure (c, b)

  -- The loop body.
  abbrev pub combine_at :
      (ℕ → Block → Block → Block) → ManagedArray × ManagedArray → ℕ → Cmd E (Unit {0})
  combine_at f (c, b) i = put (λ w. record w {
    umpire =
        store b.active_base_pointer
          (f i (contents w.umpire b.active_base_pointer) (contents w.umpire c.active_base_pointer))
          w.umpire;
  })

  unfoldable pub run_kernel : Kernel I Block → Cmd E (Unit {0})
  unfolding forall capture_both
  run_kernel k =
      forall k.policy (capture_both k.source k.target) (combine_at k.combine) k.begin k.end

  unfoldable pub run_program : List (Kernel I Block) → Cmd E (Unit {0})
  unfolding run_kernel for_each
  run_program ks = for_each ks run_kernel

-- A function of the arrays, changed at one.
abbrev pub replace_at {ℓ} : {I : Type 0} {A : Type ℓ} → Discrete I → (I → A) → I → A → I → A
replace_at same_dec f k x n = ite (same_dec n k) x (f n)

module _ {I : Type 0} (same_dec : Discrete I) {Block : Type 0} where
  -- The updates of `n` indices from `begin` on.
  unfoldable pub combine_range :
      (ℕ → Block → Block → Block) → (source target : I) → (n begin : ℕ) → (I → Block) → I → Block
  combine_range f source target zero begin values = values
  combine_range f source target (suc n) begin values =
      combine_range f source target n (begin + 1)
        (replace_at same_dec values target (f begin (values target) (values source)))

  -- The specification: each array is one value.
  unfoldable pub apply_kernel : Kernel I Block → (I → Block) → I → Block
  unfolding combine_range
  apply_kernel k values = combine_range k.combine k.source k.target (k.end - k.begin) k.begin values

  unfoldable pub apply_program : List (Kernel I Block) → (I → Block) → I → Block
  unfolding apply_kernel
  apply_program [] values = values
  apply_program (k ∷ ks) values = apply_program ks (apply_kernel k values)
