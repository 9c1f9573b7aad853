-- ===== src/Kernel/Programs/Captures.antt =====
-- The captures of a kernel over several arrays.
use chai.Kernel.Programs.{replace_at}
use chai.Umpire.{Env, Pointer, ManagerLaws, nullptr, MapLaws}
use chai.Kernel.Uses.{StoreLaws, constant, mutable}
use chai.Base.{◌≡◌, true, ◌≢◌, ◌⊎◌, inl, ◌∙◌, inr, refl, sym, ap, ◌<◌, arith}
use chai.ManagedArray.Handle.{ManagedArray, Element}
use chai.World.{PointerRecord, World, done}
use chai.Kernel.Programs.Family.{
  IsFamily, replace_at-here, captured-Family, not_written, kept_block,
}
use chai.Space.{has_gpu}
use chai.ArrayManager.Move.Settled.{Framed, InUse}
use chai.Kernel.Programs.{capture_both}
use chai.ManagedArray.Move.Settled.{Captured, copy-Captured}

module _ {E : Env} {Block : Type 0} {contents : E.Manager → Pointer → Block}
    {store : Pointer → Block → E.Manager → E.Manager} {IsLive : E.Manager → Pointer → Type 0}
    (laws : ManagerLaws E Block contents IsLive) (stores : StoreLaws E contents store IsLive)
    {I : Type 0} (same_dec : Discrete I) (arrays : I → ManagedArray) where
  module _ (T : I → Element) (gpus : has_gpu E.config ≡ true) (map : MapLaws E)
      (some_memory : (n : I)
        → ((arrays n).active_base_pointer ≢ nullptr) ⊎ (0 < (arrays n).elems)) where
    -- The handles that a kernel captures, in the world before its loop.
    pub record CapturedPair (w : World E) (source target : I) (values : I → Block)
        (c b : ManagedArray) (w' : World E) (records : I → PointerRecord) : Type 0 where
      pub runs : capture_both E contents store T arrays source target w ≡ done (c, b) w'
      pub family : IsFamily laws w' arrays records values
      pub touched : (records target).touched (records target).last_space ≡ true
      pub writes : b.active_base_pointer ≡ (records target).pointers (records target).last_space
      pub at_target : contents w'.umpire b.active_base_pointer ≡ values target
      pub at_source : contents w'.umpire c.active_base_pointer ≡ values source
      pub which :
          ((source ≡ target) × (c.active_base_pointer ≡ b.active_base_pointer))
          ⊎ ((source ≢ target) × (c.active_base_pointer ≢ b.active_base_pointer))

    module _ (w : World E) (source target : I) (values : I → Block) {c : ManagedArray}
        {w1 : World E} {records : I → PointerRecord} {p1 : PointerRecord}
        (a : IsFamily laws w arrays records values)
        (k1 : Captured laws (constant (T source)) (arrays source) w (values source) c w1 p1)
        (f1 : Framed laws w
          (arrays source).pointer_record
          (records source)
          w.current_execution_space
          w1
          p1) where
      abbrev first_records : I → PointerRecord
      first_records = replace_at same_dec records source p1

      first-Family : IsFamily laws w1 arrays first_records values
      first-Family =
          captured-Family laws same_dec arrays w a source w1 w.current_execution_space f1
            k1.coherent

      module _ {b : ManagedArray} {w2 : World E} {p2 : PointerRecord}
          (k2 : Captured laws (mutable (T target)) (arrays target) w1 (values target) b w2 p2)
          (f2 : Framed laws w1
            (arrays target).pointer_record
            (first_records target)
            w1.current_execution_space
            w2
            p2) where
        abbrev both_records : I → PointerRecord
        both_records = replace_at same_dec first_records target p2

        source_base :
            c.active_base_pointer ≡ (first_records source).pointers w1.current_execution_space
        source_base =
            k1.base
            ∙ ap p1.pointers (sym f1.current)
            ∙ ap (λ p. p.pointers w1.current_execution_space)
                (sym (replace_at-here same_dec records source p1))

        source_here : (first_records source).pointers w1.current_execution_space ≢ nullptr
        source_here n = k1.present (source_base ∙ n)

        one-base : source ≡ target → c.active_base_pointer ≡ b.active_base_pointer
        one-base same =
            source_base
            ∙ ap (λ n. (first_records n).pointers w1.current_execution_space) same
            ∙ sym (
                f2.same (λ n.
                  source_here
                    (ap (λ m. (first_records m).pointers w1.current_execution_space) same ∙ n)))
            ∙ sym k2.base

        second-Family : IsFamily laws w2 arrays both_records values
        second-Family =
            captured-Family laws same_dec arrays w1 first-Family target w2
              w1.current_execution_space f2 k2.coherent

        -- The other array's block is kept by the second capture.
        two_bases :
            source ≢ target
            → (c.active_base_pointer ≢ b.active_base_pointer)
              × (contents w2.umpire c.active_base_pointer
                  ≡ contents w1.umpire c.active_base_pointer)
        two_bases other =
            let was = first-Family.each source in
            let apart = first-Family.apart_records source target other in
            let blocks = first-Family.apart source target other in
            (
              (λ same.
                  not_written laws w1 w2 w1.current_execution_space f2 k2.coherent was apart blocks
                    w1.current_execution_space source_here (sym source_base ∙ same ∙ k2.base)),
              ap (contents w2.umpire) source_base
                  ∙ (kept_block laws w1 w2 w1.current_execution_space f2 k2.coherent was apart
                      blocks w1.current_execution_space source_here).1
                  ∙ sym (ap (contents w1.umpire) source_base),
            )

        captures-CapturedPair : CapturedPair w source target values c b w2 both_records
        unfolding capture_both
        captures-CapturedPair = record {
          runs = ground (arith, k1.runs, k2.runs);
          family = second-Family;
          touched =
              rw (replace_at-here same_dec first_records target p2, k2.last_space refl)
                (k2.touched refl);
          writes =
              rw (replace_at-here same_dec first_records target p2, k2.last_space refl) k2.base;
          at_target = k2.value;
          at_source = elim (same_dec source target) [
            | yes same ↦ ap (contents w2.umpire) (one-base same) ∙ k2.value ∙ ap values (sym same)
            | no other ↦ (two_bases other).1 ∙ k1.value
          ];
          which = elim (same_dec source target) [
            | yes same ↦ inl (same, one-base same)
            | no other ↦ inr (other, (two_bases other).0)
          ];
        }

    -- A kernel's captures, in a family of coherent arrays.
    pub capture_both-CapturedPair :
        (w : World E) (source target : I) {records : I → PointerRecord} {values : I → Block}
        → IsFamily laws w arrays records values
        → InUse w.current_execution_space
        → (c : ManagedArray) × (b : ManagedArray) × (w' : World E) × (records' : I → PointerRecord)
          × CapturedPair w source target values c b w' records'
    capture_both-CapturedPair w source target {records} {values} a used =
        let (c, w1, p1, k1, f1) =
          copy-Captured laws (constant (T source)) (arrays source) {w = w} gpus map (a.each source)
            used (some_memory source) in
        let later = first-Family w source target values a k1 f1 in
        let (b, w2, p2, k2, f2) =
          copy-Captured laws (mutable (T target)) (arrays target) {w = w1} gpus map
            (later.each target) (rw f1.current used) (some_memory target) in
        (c, b, w2, _, captures-CapturedPair w source target values a k1 f1 k2 f2)
