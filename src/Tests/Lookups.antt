-- ===== src/Tests/Lookups.antt =====
-- Registrations and lookups in `start`.
use chai.Umpire.Concrete.{find, insert}
use chai.Tests.Worlds.{env}
use chai.ArrayManager.Register.{register_pointer, deregister_pointer}
use chai.World.{World, PointerRecord, done}
use chai.Umpire.{Pointer, RecordPointer, nullptr}
use chai.ArrayManager.Query.{get_pointer_record, get_size}
use chai.Space.{cpu, space_dec, ExecutionSpace, all_spaces, spaces}
use chai.Tests.Worlds.{start, written, simulated}
use chai.Base.{
  true, if◌then◌else◌, ◌≡◌, ◌==◌, some, none, false, ◌∷◌, refl, inr, arith, [], ◌⊎◌, ◌≢◌, inl,
}
use chai.Umpire.Concrete.{Assoc, concrete-MapLaws}
use chai.ArrayManager.Create.{make_managed, or_default}
use chai.ArrayManager.Register.Effect.{with_owner}
use chai.ArrayManager.Register.Abandoned.{register_pointer-abandoned}
use chai.ArrayManager.Create.Lookup.{make_managed-get_pointer_record}
use chai.Space.Facts.{Visited}
use chai.ArrayManager.Register.Deregister.{deregister_pointer-find}

-- The null record takes over the pointer of the record 2.
abbrev contested : World env
contested = record start {
  heap = λ r. if r == 3 then some written else start.heap r;
  next_record = 4;
}

insert-keeps :
    (q : Pointer) (o r : RecordPointer) (m : Assoc)
    → find q m ≡ some o
    → find q (insert q r m) ≡ some o
insert-keeps q o r [] h = cc
insert-keeps q o r ((p, s) ∷ m) h = ground (arith, insert-keeps q o r m)

register_pointer-abandoned_example :
    (w' : World env) × (register_pointer 3 cpu true contested ≡ done tt w')
    × (w'.heap 2 ≡ none)
    × (w'.heap 3 ≡ some (with_owner env written cpu true))
    × (get_pointer_record 1 w' ≡ done 2 w')
unfolding space_dec
register_pointer-abandoned_example =
    register_pointer-abandoned insert-keeps contested 3 2 written written cpu true refl refl
      (λ e. omega arith) (λ e. omega arith) refl refl

make_managed-get_pointer_record_example :
    (w' : World env) × (p : PointerRecord) × (make_managed 9 16 cpu true start ≡ done 3 w')
    × (w'.heap 3 ≡ some p)
    × (p.pointers (or_default cpu start) ≡ 9)
    × (p.owned (or_default cpu start) ≡ true)
    × (p.size ≡ 16)
    × (get_pointer_record 9 w' ≡ done 3 w')
    × (get_size 9 w' ≡ done 16 w')
make_managed-get_pointer_record_example =
    make_managed-get_pointer_record (concrete-MapLaws simulated) start 9 16 cpu true
      (λ e. omega arith) (omega arith) refl refl (omega arith)

written-foreign : (t : ExecutionSpace) → Visited t (all_spaces simulated) → 9 ≢ written.pointers t
unfolding space_dec
written-foreign t v e = ground arith

deregister_pointer-find_example :
    (w' : World env) × (deregister_pointer 2 true start ≡ done tt w')
    × (w'.heap ≡ (λ o. if o == 2 then none else start.heap o))
    × (w'.locked ≡ false)
    × ((written.pointers cpu ≡ nullptr) ⊎ (env.find (written.pointers cpu) w'.pointer_map ≡ none))
    × (env.find 9 w'.pointer_map ≡ env.find 9 start.pointer_map)
unfolding all_spaces spaces
deregister_pointer-find_example =
    deregister_pointer-find (concrete-MapLaws simulated) 2 written true start cpu 9 refl
      (λ e. omega arith) refl (inr (inl refl)) written-foreign
