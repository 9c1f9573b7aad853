-- ===== src/Tests/Runs.antt =====
-- A run of calls from a new ArrayManager, and reallocations of memory in several spaces.
use chai.Base.{All, List, ◌≡◌, some, refl, arith, true, inl, inr, ◌⊎◌}
use chai.Umpire.{RecordPointer, AllocatorId, Pointer}
use chai.Umpire.Concrete.{
  concrete-ListingLaws, concrete-MapLaws, concrete-ManagerLaws, concrete-ReleaseLaws, IsLive,
  Memory,
}
use chai.Tests.Worlds.{env, simulated}
use chai.Runs.{manage, move_array, perform, Reaches, here, next, IsArray}
use chai.ArrayManager.Query.{get_total_size}
use chai.ArrayManager.Query.Totals.{Lives}
use chai.Runs.Leaks.{Reaches-get_total_size, Reaches-report_leaks}
use chai.ArrayManager.Query.Leaks.{LeakReport}
use chai.Runs.Reached.{Reaches-IsConsistent, Reaches-perform, Reaches-get_pointer_record}
use chai.ArrayManager.Start.{construct, AllocatorName}
use chai.ArrayManager.Create.Lookup.{registered_world, make_managed-registered, filled_in}
use chai.World.{Event, World, PointerRecord, done, null_record}
use chai.Space.{cpu, spaces, gpu, space_dec}
use chai.ArrayManager.Consistent.{IsConsistent, Holds}
use chai.ArrayManager.Register.Effect.{with_owner}
use chai.ArrayManager.Query.{get_pointer_record}
use chai.ArrayManager.Consistent.Dropped.{IsExclusive}
use chai.ArrayManager.Consistent.Reallocated.{Outcome, reallocate-Outcome}

abbrev one_allocator : AllocatorName → AllocatorId
one_allocator name = 0

-- The client has memory at the addresses up to 9.
abbrev client_memory : Memory
client_memory = record { last = 9; block = λ q. q }

abbrev new_manager : World env
new_manager = construct env one_allocator client_memory

-- The array manager takes over the memory at 9.
abbrev managed : World env
managed = registered_world (concrete-MapLaws simulated) new_manager 9 16 cpu true

managed-perform : perform (manage 9 16 cpu true) new_manager ≡ done tt managed
unfolding perform construct
managed-perform = ground (
  arith,
  make_managed-registered (concrete-MapLaws simulated) new_manager 9 16 cpu true (λ e. omega arith)
      (omega arith) refl refl,
)

managed-Reaches : Reaches IsLive new_manager managed
unfolding construct spaces space_dec
managed-Reaches =
    next (manage 9 16 cpu true) here (λ e. omega arith, omega arith, refl, inl refl, omega arith)
      managed-perform

managed_array : IsArray managed 2
unfolding construct
managed_array = record {
  own = λ e. omega arith;
  object =
      with_owner env (filled_in (concrete-MapLaws simulated) new_manager 9 16 cpu true) cpu true;
  at = ground arith;
}

managed-IsConsistent : IsConsistent env IsLive managed
managed-IsConsistent =
    Reaches-IsConsistent (concrete-ManagerLaws simulated) (concrete-ReleaseLaws simulated)
      (concrete-MapLaws simulated) one_allocator client_memory managed-Reaches

Reaches-IsConsistent_example : IsConsistent env IsLive managed
Reaches-IsConsistent_example =
    Reaches-IsConsistent (concrete-ManagerLaws simulated) (concrete-ReleaseLaws simulated)
      (concrete-MapLaws simulated) one_allocator client_memory managed-Reaches

Reaches-perform_example :
    (w' : World env) × (perform (move_array 2 gpu) managed ≡ done tt w')
    × Reaches IsLive new_manager w'
unfolding spaces
Reaches-perform_example =
    Reaches-perform (concrete-ManagerLaws simulated) (concrete-ReleaseLaws simulated)
      (concrete-MapLaws simulated) one_allocator client_memory (move_array 2 gpu) managed-Reaches
      (managed_array, inr (inl refl))

Reaches-get_pointer_record_example :
    (r : RecordPointer) × (p : PointerRecord) × (get_pointer_record 9 managed ≡ done r managed)
    × (managed.heap r ≡ some p)
    × (Holds managed.heap 9 r
        ⊎ ((r ≡ null_record) × ((o : RecordPointer) → ¬ (Holds managed.heap 9 o))))
Reaches-get_pointer_record_example =
    Reaches-get_pointer_record (concrete-ManagerLaws simulated) (concrete-ReleaseLaws simulated)
      (concrete-MapLaws simulated) one_allocator client_memory 9 managed-Reaches

managed_alone : IsExclusive managed_array.object
unfolding managed_array
managed_alone s t full same = ground arith

reallocate-Outcome_example :
    (w' : World env) × (p' : PointerRecord) × (q : Pointer) × Outcome
      (concrete-ManagerLaws simulated)
      (concrete-ReleaseLaws simulated)
      (concrete-MapLaws simulated)
      managed_array.own
      4
      6
      9
      managed
      w'
      managed_array.object
      p'
      q
reallocate-Outcome_example =
    reallocate-Outcome (concrete-ManagerLaws simulated) (concrete-ReleaseLaws simulated)
      (concrete-MapLaws simulated) {r = 2} managed_array.own 4 6 9 managed managed_array.object
      managed-IsConsistent managed_array.at managed_alone

Reaches-report_leaks_example : (es : List Event) × LeakReport managed es
Reaches-report_leaks_example =
    Reaches-report_leaks (concrete-ManagerLaws simulated) (concrete-ReleaseLaws simulated)
      (concrete-MapLaws simulated) (concrete-ListingLaws simulated) one_allocator client_memory
      managed-Reaches

Reaches-get_total_size_example :
    All (Lives managed.heap) (env.entries managed.pointer_map)
    × (get_total_size managed ≡ done 16 managed)
unfolding construct
Reaches-get_total_size_example =
    Reaches-get_total_size (concrete-ManagerLaws simulated) (concrete-ReleaseLaws simulated)
      (concrete-MapLaws simulated) (concrete-ListingLaws simulated) one_allocator client_memory
      managed-Reaches
