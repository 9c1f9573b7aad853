-- ===== src/ManagedArray/Elements/RoundTrip.antt =====
-- An element of a ManagedArray that is set is picked as set.
use chai.Umpire.{Env, Pointer}
use chai.ArrayManager.Elements.{ElementMemory, read, write}
use chai.ManagedArray.Elements.{pick, set}
use chai.ManagedArray.Handle.{Element, advance, ManagedArray}
use chai.World.{
  World, done, called, PointerRecord, synchronize, load, synchronized, modify, put_record,
}
use chai.Base.{
  ◌+◌, ◌≡◌, ℕ, ap, ◌∙◌, refl, some, if◌then◌else◌, ite, Bool, ◌&&◌, Bool-cases, ◌==◌, inl, inr,
  arith, true, subst,
}
use chai.Space.{ExecutionSpace, space_dec, um, cpu, update}
use native.Mathlib.Nat.{add-mul}
use chai.ArrayManager.Elements.Effect.{
  ElementLaws, Yields, Disjoint, manager_pick-Yields, manager_set-Puts,
}

-- The space whose memory an element is read from and written to.
abbrev first_space : PointerRecord → ExecutionSpace
first_space p = ite (space_dec p.last_space ExecutionSpace.none) cpu p.last_space

-- The element's address: where the handle points to, for memory of UM.
abbrev pub element_address : Env → Element → ManagedArray → PointerRecord → ℕ → Pointer
element_address E T a p i =
    if E.config.um && p.pointers um == a.active_base_pointer
    then advance T a.active_pointer i
    else advance T (p.pointers (first_space p)) (i + a.offset)

module _ {E : Env} {V : ElementMemory E} {T : Element} (laws : ElementLaws V T) (a : ManagedArray)
    (i : ℕ) (w : World E) (p : PointerRecord) (at : w.heap a.pointer_record ≡ some p) where
  read-Yields : (q : Pointer) → V.mapped q w.umpire ≡ true → Yields laws (read V T q w) w q
  unfolding read
  read-Yields q here = record {
    after = w;
    runs = ground arith;
    heap = refl;
    kept = λ x apart. refl;
    mapped = λ x m. m;
  }

  array_pick-Yields :
      V.mapped (element_address E T a p i) w.umpire ≡ true
      → Yields laws (pick V T a i w) w (element_address E T a p i)
  unfolding pick read synchronize load space_dec
  array_pick-Yields here =
      elim (Bool-cases (E.config.um && p.pointers um == a.active_base_pointer)) [
        | inl shared ↦ record {
          after = called synchronized w.umpire w;
          runs = ground arith;
          heap = refl;
          kept = λ x apart. refl;
          mapped = λ x m. m;
        }
        | inr other ↦ elim (space_dec p.last_space ExecutionSpace.none) [
          | yes nowhere ↦ record {
            after = w;
            runs = ground arith;
            heap = refl;
            kept = λ x apart. refl;
            mapped = λ x m. m;
          }
          | no somewhere ↦ elim (space_dec p.last_space cpu) [
            | yes on_cpu ↦ record {
              after = w;
              runs = ground arith;
              heap = refl;
              kept = λ x apart. refl;
              mapped = λ x m. m;
            }
            | no off_cpu ↦
                let m =
                  manager_pick-Yields laws w (p.pointers p.last_space) (i + a.offset)
                    (ground arith) in
                record {
                  after = m.after;
                  runs = ground (arith, m.runs);
                  heap = m.heap;
                  kept = m.kept;
                  mapped = m.mapped;
                }
          ]
        ]
      ]

module _ {E : Env} {V : ElementMemory E} {T : Element} (laws : ElementLaws V T) (a : ManagedArray)
    (i : ℕ) (w : World E) (p : PointerRecord) (at : w.heap a.pointer_record ≡ some p) where
  abbrev pub on_um : Bool
  on_um = E.config.um && p.pointers um == a.active_base_pointer

  -- The record once an element has been set in memory that is not of UM.
  abbrev pub written_record : PointerRecord
  written_record = record p {
    last_space = first_space p;
    touched = update p.touched (first_space p) true;
  }

  -- Both tests for memory of UM come out alike, as they do where the array has no memory of UM, and
  -- where it has no offset.
  module _
      (same_test : (E.config.um && p.pointers um == a.active_base_pointer)
        ≡ (E.config.um && p.pointers um == a.active_pointer)) where
    abbrev pub set_record : PointerRecord
    set_record = if on_um then p else written_record

    set_record-address : (j : ℕ) → element_address E T a set_record j ≡ element_address E T a p j
    unfolding space_dec
    set_record-address j = elim (Bool-cases on_um) [
      | inl shared ↦ ground arith
      | inr other ↦ ground arith
    ]

    array_set-Puts :
        (v : V.Value)
        → V.mapped (element_address E T a p i) w.umpire ≡ true
        → (w' : World E) × (set V T a i v w ≡ done tt w')
          × (w'.heap a.pointer_record ≡ some set_record)
          × (V.peek (element_address E T a p i) w'.umpire ≡ v)
          × ((x : Pointer)
              → Disjoint V T V.local x
              → Disjoint V T (element_address E T a p i) x
              → V.peek x w'.umpire ≡ V.peek x w.umpire)
          × ((x : Pointer) → V.mapped x w.umpire ≡ true → V.mapped x w'.umpire ≡ true)
    unfolding set write synchronize load modify
    array_set-Puts v here = elim (Bool-cases on_um) [
      | inl shared ↦
          let addr : element_address E T a p i ≡ advance T a.active_pointer i = ground arith in
          let there : V.mapped (advance T a.active_pointer i) w.umpire ≡ true =
            subst (λ q. V.mapped q w.umpire ≡ true) addr here in
          let w1 : World E = called synchronized w.umpire w in
          (
            record w1 { umpire = V.poke (advance T a.active_pointer i) v w.umpire },
            ground arith,
            ground arith,
            ap (λ q. V.peek q (V.poke (advance T a.active_pointer i) v w.umpire)) addr
                ∙ laws.poke_here (advance T a.active_pointer i) v w.umpire there,
            λ x l o.
                laws.poke_other (advance T a.active_pointer i) x v w.umpire there
                  (subst (λ q. Disjoint V T q x) addr o),
            λ x m. laws.poke_mapped (advance T a.active_pointer i) x v w.umpire ∙ m,
          )
      | inr other ↦
          let w1 : World E =
            put_record a.pointer_record (some (record p { last_space = first_space p })) w in
          let w2 : World E = put_record a.pointer_record (some written_record) w1 in
          let base : Pointer = advance T (p.pointers (first_space p)) a.offset in
          let addr : element_address E T a p i ≡ advance T base i =
            ground (arith, add-mul i a.offset T.sizeof_t) in
          let m =
            manager_set-Puts laws w2 base i (subst (λ q. V.mapped q w.umpire ≡ true) addr here) v in
          (
            m.after,
            ground (arith, m.runs),
            ground (arith, m.heap),
            ap (λ q. V.peek q m.after.umpire) addr ∙ m.value,
            λ x l o. m.kept x l (subst (λ q. Disjoint V T q x) addr o),
            m.mapped,
          )
    ]

    -- An element that is set is then picked as set, and a pick of another element yields what it
    -- yielded before, wherever the array was last touched: on the host, in another space, through the
    -- array manager, or in UM. Where the memory is not of UM, the record is marked as touched in its
    -- last space, the CPU if it had none. Both elements are in memory, the record is live, the tests for memory of UM come out alike
    -- for the handle's two pointers, the elements share no byte with each other or the local variable
    -- of the copies, and memory and the resource manager meet their laws.
    pub set-pick-pick :
        (v : V.Value) (j : ℕ)
        → V.mapped (element_address E T a p i) w.umpire ≡ true
        → V.mapped (element_address E T a p j) w.umpire ≡ true
        → Disjoint V T V.local (element_address E T a p j)
        → Disjoint V T (element_address E T a p i) (element_address E T a p j)
        → (w' : World E) × (w1 : World E) × (w2 : World E) × (w3 : World E) × (x : V.Value) × (set V
              T a i v w
            ≡ done tt w')
          × (w'.heap a.pointer_record ≡ some set_record)
          × (pick V T a i w' ≡ done v w1)
          × (pick V T a j w ≡ done x w2)
          × (pick V T a j w' ≡ done x w3)
    set-pick-pick v j at_i at_j local_apart apart =
        let (w', runs, heap, value, kept, mapped) = array_set-Puts v at_i in
        let still : (n : ℕ)
            → V.mapped (element_address E T a p n) w.umpire ≡ true
            → V.mapped (element_address E T a set_record n) w'.umpire ≡ true =
          λ n m.
            ap (λ q. V.mapped q w'.umpire) (set_record-address n)
            ∙ mapped (element_address E T a p n) m in
        let here = array_pick-Yields laws a i w' set_record heap (still i at_i) in
        let before = array_pick-Yields laws a j w p at at_j in
        let there = array_pick-Yields laws a j w' set_record heap (still j at_j) in
        (
          w',
          here.after,
          before.after,
          there.after,
          V.peek (element_address E T a p j) w.umpire,
          runs,
          heap,
          here.runs
              ∙ ap (λ x. done x here.after)
                  (ap (λ q. V.peek q w'.umpire) (set_record-address i) ∙ value),
          before.runs,
          there.runs
              ∙ ap (λ x. done x there.after)
                  (ap (λ q. V.peek q w'.umpire) (set_record-address j)
                    ∙ kept (element_address E T a p j) local_apart apart),
        )
