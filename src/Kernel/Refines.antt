-- ===== src/Kernel/Refines.antt =====
-- Kernels of the CPU and of the GPU that use one ManagedArray keep it coherent.
use chai.Umpire.{Env, Pointer, ManagerLaws, MapLaws, nullptr}
use chai.Kernel.Uses.{
  Policy, StoreLaws, updates, update_range, run_use, apply_use, Use, reads, constant, writes,
  mutable, policy_space, run_uses, apply_uses,
}
use chai.World.{World, done, pure, PointerRecord, Run, for_each, bind}
use chai.Base.{
  ℕ, ◌≡◌, ◌-◌, inl, suc, refl, ◌+◌, zero, false, true, ◌∙◌, ap, sym, ◌≢◌, ◌⊎◌, ◌<◌, List, ◌∷◌, [],
}
use chai.ArrayManager.Settings.Effect.{in_space}
use chai.Space.{has_gpu}
use chai.Kernel.{forall_kernel_cpu}
use chai.ArrayManager.Move.Settled.{InUse, IsCoherent}
use chai.ManagedArray.Handle.{ManagedArray, Element}
use chai.ManagedArray.Move.Settled.{Captured, copy-Captured}
use chai.ManagedArray.Move.{copy}
use chai.Kernel.Launched.{
  entered, policy_space-InUse, entered-Coherent, entered-InUse, left, forall_lem, left-Coherent,
}

no_op_loop : {E : Env} (n i : ℕ) (w : World E) → forall_kernel_cpu n i (λ j. pure tt) w ≡ done tt w
unfolding forall_kernel_cpu
no_op_loop zero i w = refl
no_op_loop (suc n) i w = no_op_loop n (i + 1) w

module _ {E : Env} {Block : Type 0} {contents : E.Manager → Pointer → Block}
    {store : Pointer → Block → E.Manager → E.Manager} {IsLive : E.Manager → Pointer → Type 0}
    (laws : ManagerLaws E Block contents IsLive) (stores : StoreLaws E contents store IsLive) where
  module _ (f : ℕ → Block → Block) (b : ManagedArray) where
    -- The resource manager once a kernel has updated the block `n` times.
    abbrev pub stored : (n i : ℕ) → E.Manager → E.Manager
    stored zero i u = u
    stored (suc n) i u =
        stored n (i + 1) (store b.active_base_pointer (f i (contents u b.active_base_pointer)) u)

    pub stored-loop :
        (n i : ℕ) (w : World E)
        → forall_kernel_cpu n i (updates E contents store f b) w
          ≡ done tt (record w { umpire = stored n i w.umpire })
    unfolding forall_kernel_cpu
    stored-loop zero i w = refl
    stored-loop (suc n) i w = stored-loop n (i + 1) (record w {
      umpire = store b.active_base_pointer (f i (contents w.umpire b.active_base_pointer)) w.umpire;
    })

    stored-live : (n i : ℕ) (u : E.Manager) (q : Pointer) → IsLive u q → IsLive (stored n i u) q
    stored-live zero i u q l = l
    stored-live (suc n) i u q l = stored-live n (i + 1) _ q (stores.store_live _ _ u q l)

    stored-value :
        (n i : ℕ) (u : E.Manager) (v : Block)
        → contents u b.active_base_pointer ≡ v
        → contents (stored n i u) b.active_base_pointer ≡ update_range f n i v
    unfolding update_range
    stored-value zero i u v e = e
    stored-value (suc n) i u v e =
        stored-value n (i + 1) _ (f i v) (stores.store_to _ _ u ∙ ap (f i) e)

  -- A block that a kernel updates after it captured an array has the updated value.
  pub written_Coherent :
      (f : ℕ → Block → Block) (n i : ℕ) {T : Element} {a b : ManagedArray} {w w' : World E}
      {p' : PointerRecord} {v : Block}
      → T.is_const ≡ false
      → InUse w.current_execution_space
      → Captured laws T a w v b w' p'
      → IsCoherent laws
          (record w' { umpire = stored f b n i w'.umpire })
          a.pointer_record
          p'
          (update_range f n i v)
  written_Coherent f n i {b = b} {w' = w'} const used k =
      let c = k.coherent in
      record {
        real = c.real;
        own = c.own;
        at = c.at;
        in_use = c.in_use;
        here = c.here;
        live = λ s h. stored-live f b n i w'.umpire _ (c.live s h);
        unlocked = c.unlocked;
        map_live = λ q o e. stored-live f b n i w'.umpire q (c.map_live q o e);
        holds = inl (
          rw (k.last_space const) (k.touched const),
          rw (k.last_space const, sym k.base) (stored-value f b n i w'.umpire _ k.value),
        );
      }

  module _ (T : Element) (a : ManagedArray) (gpus : has_gpu E.config ≡ true) (map : MapLaws E)
      (filled : (a.active_base_pointer ≢ nullptr) ⊎ (0 < a.elems)) where
    -- The state that a program of kernels ends in.
    pub record Computed (run : Run E (Unit {0})) (v : Block) (w' : World E) (p' : PointerRecord)
        : Type 0 where
      pub runs : run ≡ done tt w'
      pub coherent : IsCoherent laws w' a.pointer_record p' v

    -- A kernel that updates an array, once it has captured it.
    pub writes-Computed :
        (policy : Policy) (begin end : ℕ) (f : ℕ → Block → Block) (w : World E) {b : ManagedArray}
        {w' : World E} {p' : PointerRecord} {v : Block}
        → Captured laws (mutable T) a (entered policy w) v b w' p'
        → Computed
            (run_use E contents store T a (writes policy begin end f) w)
            (update_range f (end - begin) begin v)
            (left policy (record w' { umpire = stored f b (end - begin) begin w'.umpire }))
            p'
    unfolding run_use
    writes-Computed policy begin end f w {b} {w'} k = record {
      runs =
          forall_lem (copy (mutable T) a) (updates E contents store f) begin end w policy k.runs
            (stored-loop f b (end - begin) begin w');
      coherent =
          left-Coherent _ policy
            (written_Coherent f (end - begin) begin refl (entered-InUse policy w) k);
    }

    run_use-Computed :
        (use_ : Use Block) (w : World E) {p : PointerRecord} {v : Block}
        → IsCoherent laws w a.pointer_record p v
        → (w' : World E) × (p' : PointerRecord) × Computed
            (run_use E contents store T a use_ w)
            (apply_use use_ v)
            w'
            p'
    unfolding run_use apply_use
    run_use-Computed (reads policy begin end) w c =
        let (b, w', p', k, _) =
          copy-Captured laws (constant T) a {w = entered policy w} gpus map
            (entered-Coherent w policy c) (entered-InUse policy w) filled in
        (
          left policy w',
          p',
          record {
            runs =
                forall_lem (copy (constant T) a) (λ _ i. pure tt) begin end w policy k.runs
                  (no_op_loop (end - begin) begin w');
            coherent = left-Coherent w' policy k.coherent;
          },
        )
    run_use-Computed (writes policy begin end f) w c =
        let (_, _, _, k, _) =
          copy-Captured laws (mutable T) a {w = entered policy w} gpus map
            (entered-Coherent w policy c) (entered-InUse policy w) filled in
        (_, _, writes-Computed policy begin end f w k)

    pub run_uses-Computed :
        (us : List (Use Block)) (w : World E) {p : PointerRecord} {v : Block}
        → IsCoherent laws w a.pointer_record p v
        → (w' : World E) × (p' : PointerRecord) × Computed
            (run_uses E contents store T a us w)
            (apply_uses us v)
            w'
            p'
    unfolding run_uses apply_uses for_each
    run_uses-Computed [] w c = (w, _, record { runs = refl; coherent = c })
    run_uses-Computed (u ∷ us) w c =
        let (w1, p1, k) = run_use-Computed u w c in
        let (w2, p2, rest) = run_uses-Computed us w1 k.coherent in
        (
          w2,
          p2,
          record {
            runs =
                ap (λ run. bind run (λ _. for_each us (run_use E contents store T a))) k.runs
                ∙ rest.runs;
            coherent = rest.coherent;
          },
        )

    pub captured_value :
        (policy : Policy) (U : Element) (w : World E) {p : PointerRecord} {v : Block}
        → IsCoherent laws w a.pointer_record p v
        → (b : ManagedArray) × (w' : World E) × (copy U a (in_space (policy_space policy) w)
            ≡ done b w')
          × (contents w'.umpire b.active_base_pointer ≡ v)
    captured_value policy U w c =
        let (b, w', p', k, _) =
          copy-Captured laws U a {w = in_space (policy_space policy) w} gpus map c
            (policy_space-InUse policy) filled in
        (b, w', k.runs, k.value)
