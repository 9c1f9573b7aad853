-- ===== src/Kernel/Programs/Loop.antt =====
-- The loop of a kernel over several arrays.
use chai.Umpire.{Env, Pointer, ManagerLaws, nullptr}
use chai.Kernel.Uses.{StoreLaws}
use chai.Base.{ℕ, ◌≡◌, true, ◌≢◌, ◌⊎◌, inl, ◌∙◌, suc, inr, zero, refl, sym, ◌+◌, subst, ap}
use chai.ManagedArray.Handle.{ManagedArray, Element}
use chai.World.{PointerRecord, World, done}
use chai.Kernel.Programs.Family.{IsFamily, replace_at-here, replace_at-other, Family}
use chai.Space.{ExecutionSpace}
use chai.ArrayManager.Move.Settled.{Holds}
use chai.Kernel.Programs.{replace_at, combine_range, combine_at, replace_at}
use chai.Kernel.{forall_kernel_cpu}

module _ {E : Env} {Block : Type 0} {contents : E.Manager → Pointer → Block}
    {store : Pointer → Block → E.Manager → E.Manager} {IsLive : E.Manager → Pointer → Type 0}
    (laws : ManagerLaws E Block contents IsLive) (stores : StoreLaws E contents store IsLive)
    {I : Type 0} (same_dec : Discrete I) (arrays : I → ManagedArray) where
  -- A write of the block where the target was last touched.
  module _ {records : I → PointerRecord} {values : I → Block} (w : World E)
      (a : IsFamily laws w arrays records values) (k : I)
      (touched : (records k).touched (records k).last_space ≡ true) (v : Block) where
    abbrev base_of : Pointer
    base_of = (records k).pointers (records k).last_space

    abbrev after_store : World E
    after_store = record w { umpire = store base_of v w.umpire }

    stored-live :
        (n : I) (s : ExecutionSpace)
        → (records n).pointers s ≢ nullptr
        → IsLive after_store.umpire ((records n).pointers s)
    stored-live n s here = stores.store_live base_of v w.umpire _ ((a.each n).live s here)

    stored-other :
        (n : I)
        → n ≢ k
        → (s : ExecutionSpace) → (records n).pointers s ≢ nullptr
        → contents after_store.umpire ((records n).pointers s)
          ≡ contents w.umpire ((records n).pointers s)
    stored-other n other s here =
        stores.store_keeps base_of v w.umpire _ (a.apart n k other s (records k).last_space here)

    stored-Holds :
        (n : I) → Holds laws after_store.umpire (records n) (replace_at same_dec values k v n)
    stored-Holds n = elim (same_dec n k) [
      | yes same ↦
          rw (same, replace_at-here same_dec values k v)
            (inl (touched, stores.store_to base_of v w.umpire))
      | no other ↦ rw (replace_at-other same_dec values k v n other) (elim (a.each n).holds [
        | inl (t, e) ↦ inl (t, stored-other n other (records n).last_space (a.each n).here ∙ e)
        | inr (t, all) ↦
            inr (
              t,
              λ s used. ((all s used).0, stored-other n other s (all s used).0 ∙ (all s used).1),
            )
      ])
    ]

    stored-Family : IsFamily laws after_store arrays records (replace_at same_dec values k v)
    stored-Family = record {
      each = λ n. record {
        real = (a.each n).real;
        own = (a.each n).own;
        at = (a.each n).at;
        in_use = (a.each n).in_use;
        here = (a.each n).here;
        live = stored-live n;
        unlocked = (a.each n).unlocked;
        map_live = λ q o e. stores.store_live base_of v w.umpire q ((a.each n).map_live q o e);
        holds = stored-Holds n;
      };
      apart_records = a.apart_records;
      apart = a.apart;
    }

  -- A loop over a range, on captured handles: the target's is its block, and the source's a block with
  -- its value that no write changes, or the target's own.
  module _ (T : I → Element) (f : ℕ → Block → Block → Block) (source target : I)
      (records : I → PointerRecord) (c b : ManagedArray)
      (touched : (records target).touched (records target).last_space ≡ true)
      (writes : b.active_base_pointer ≡ (records target).pointers (records target).last_space) where
    pub combine-loop :
        (n i : ℕ) (w : World E) (values : I → Block)
        → IsFamily laws w arrays records values
        → contents w.umpire b.active_base_pointer ≡ values target
        → contents w.umpire c.active_base_pointer ≡ values source
        → ((source ≡ target) × (c.active_base_pointer ≡ b.active_base_pointer))
          ⊎ ((source ≢ target) × (c.active_base_pointer ≢ b.active_base_pointer))
        → (w' : World E) × (forall_kernel_cpu n i (combine_at E contents store T arrays f (c, b)) w
            ≡ done tt w')
          × IsFamily laws w' arrays records (combine_range same_dec f source target n i values)
    unfolding forall_kernel_cpu combine_range
    combine-loop zero i w values a x y which = (w, refl, a)
    combine-loop (suc n) i w values a x y which =
        let old : Block =
          f i (contents w.umpire b.active_base_pointer) (contents w.umpire c.active_base_pointer) in
        let new : Block = f i (values target) (values source) in
        let same_value : old ≡ new = cc in
        let w1 : World E = record w { umpire = store b.active_base_pointer old w.umpire } in
        let same_store : store ((records target).pointers (records target).last_space) new w.umpire
            ≡ w1.umpire =
          cc in
        let later : I → Block = replace_at same_dec values target new in
        let at_target : contents w1.umpire b.active_base_pointer ≡ later target =
          stores.store_to b.active_base_pointer old w.umpire
          ∙ same_value
          ∙ sym (replace_at-here same_dec values target new) in
        combine-loop n (i + 1) w1 later
          (subst (λ u. Family laws w.heap u w.locked w.pointer_map arrays records later) same_store
            (stored-Family w a target touched new))
          at_target
          (elim which [
            | inl (same, shared) ↦ ap (contents w1.umpire) shared ∙ at_target ∙ ap later (sym same)
            | inr (other, apart) ↦
                stores.store_keeps b.active_base_pointer old w.umpire c.active_base_pointer apart
                ∙ y
                ∙ sym (replace_at-other same_dec values target new source other)
          ])
          which
