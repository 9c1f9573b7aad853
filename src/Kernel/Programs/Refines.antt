-- ===== src/Kernel/Programs/Refines.antt =====
-- Programs of kernels over several ManagedArrays compute what the same updates compute on values.
use chai.Umpire.{Env, Pointer, ManagerLaws, MapLaws, nullptr}
use chai.Kernel.Uses.{StoreLaws, Policy, policy_space}
use chai.Base.{◌≡◌, true, ◌≢◌, ◌⊎◌, ◌<◌, List, ◌∷◌, ap, ◌-◌, ◌∙◌, [], refl}
use chai.ManagedArray.Handle.{ManagedArray, Element}
use chai.World.{World, PointerRecord, done, for_each, bind}
use chai.Space.{has_gpu}
use chai.Kernel.Programs.Family.{IsFamily}
use chai.Kernel.Launched.{entered, left, entered-Coherent, left-Coherent, entered-InUse, forall_lem}
use chai.Kernel.Programs.{
  run_kernel, run_program, apply_kernel, apply_program, Kernel, capture_both, combine_at,
}
use chai.ManagedArray.Move.{copy}
use chai.Kernel.Programs.Captures.{capture_both-CapturedPair}
use chai.ArrayManager.Settings.Effect.{in_space}
use chai.Kernel.Programs.Loop.{combine-loop}
use chai.Kernel.Refines.{captured_value}

module _ {E : Env} {Block : Type 0} {contents : E.Manager → Pointer → Block}
    {store : Pointer → Block → E.Manager → E.Manager} {IsLive : E.Manager → Pointer → Type 0}
    (laws : ManagerLaws E Block contents IsLive) (stores : StoreLaws E contents store IsLive)
    {I : Type 0} (same_dec : Discrete I) (arrays : I → ManagedArray) where
  entered-Family :
      (policy : Policy) (w : World E) {records : I → PointerRecord} {values : I → Block}
      → IsFamily laws w arrays records values
      → IsFamily laws (entered policy w) arrays records values
  entered-Family policy w a = record {
    each = λ n. entered-Coherent w policy (a.each n);
    apart_records = a.apart_records;
    apart = a.apart;
  }

  left-Family :
      (policy : Policy) (w : World E) {records : I → PointerRecord} {values : I → Block}
      → IsFamily laws w arrays records values
      → IsFamily laws (left policy w) arrays records values
  left-Family policy w a = record {
    each = λ n. left-Coherent w policy (a.each n);
    apart_records = a.apart_records;
    apart = a.apart;
  }

  module _ (T : I → Element) (gpus : has_gpu E.config ≡ true) (map : MapLaws E)
      (some_memory : (n : I)
        → ((arrays n).active_base_pointer ≢ nullptr) ⊎ (0 < (arrays n).elems)) where
    run_kernel_lem :
        (k : Kernel I Block) (w : World E) {records : I → PointerRecord} {values : I → Block}
        → IsFamily laws w arrays records values
        → (w' : World E) × (records' : I → PointerRecord) × (run_kernel E contents store T arrays k
              w
            ≡ done tt w')
          × IsFamily laws w' arrays records' (apply_kernel same_dec k values)
    unfolding run_kernel apply_kernel
    run_kernel_lem k w {records} {values} a =
        let (c, b, w1, records1, m) =
          capture_both-CapturedPair laws stores same_dec arrays T gpus map some_memory
            (entered k.policy w) k.source k.target (entered-Family k.policy w a)
            (entered-InUse k.policy w) in
        let (w2, runs, family) =
          combine-loop laws stores same_dec arrays T k.combine k.source k.target records1 c b
            m.touched m.writes (k.end - k.begin) k.begin w1 values m.family m.at_target m.at_source
            m.which in
        (
          left k.policy w2,
          records1,
          forall_lem (capture_both E contents store T arrays k.source k.target)
              (combine_at E contents store T arrays k.combine) k.begin k.end w k.policy m.runs runs,
          left-Family k.policy w2 family,
        )

    run_program_lem :
        (ks : List (Kernel I Block)) (w : World E) {records : I → PointerRecord}
        {values : I → Block}
        → IsFamily laws w arrays records values
        → (w' : World E) × (records' : I → PointerRecord) × (run_program E contents store T arrays
              ks w
            ≡ done tt w')
          × IsFamily laws w' arrays records' (apply_program same_dec ks values)
    unfolding run_program apply_program for_each
    run_program_lem [] w a = (w, _, refl, a)
    run_program_lem (k ∷ ks) w a =
        let (w1, _, first, family) = run_kernel_lem k w a in
        let (w2, records2, rest, last) = run_program_lem ks w1 family in
        (
          w2,
          records2,
          ap (λ run. bind run (λ _. for_each ks (run_kernel E contents store T arrays))) first
              ∙ rest,
          last,
        )

    -- In a build with a GPU, a program of kernels over any number of arrays, each of which captures a
    -- source as an array of const and a target that it updates from both, index by index, on the CPU or
    -- the GPU, runs to its end, and computes what the same updates compute on one value for each array:
    -- a capture of any array that follows, const or mutable, on either side, yields a handle whose base
    -- has the specification's value. The source and the target may be the same. The arrays are not
    -- empty, and have records of their own and no pointers in common; each record was last touched in
    -- the space of the CPU or of the GPU, where it is marked and has the value, or, if it is not marked
    -- there, has the value on both sides; its pointers are live, the mutex is free, the map holds live
    -- pointers only, and the resource manager, the map and the kernels' stores meet their laws.
    pub run_program-apply_program :
        (ks : List (Kernel I Block)) (w : World E) {records : I → PointerRecord}
        {values : I → Block}
        → IsFamily laws w arrays records values
        → (w' : World E) × (run_program E contents store T arrays ks w ≡ done tt w')
          × ((policy : Policy) (n : I) (U : Element)
              → (b : ManagedArray) × (w'' : World E) × (copy U
                    (arrays n)
                    (in_space (policy_space policy) w')
                  ≡ done b w'')
                × (contents w''.umpire b.active_base_pointer ≡ apply_program same_dec ks values n))
    run_program-apply_program ks w a =
        let (w', records', runs, family) = run_program_lem ks w a in
        (
          w',
          runs,
          λ policy n U.
              captured_value laws stores (T n) (arrays n) gpus map (some_memory n) policy U w'
                (family.each n),
        )
