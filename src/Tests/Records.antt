-- ===== src/Tests/Records.antt =====
-- Frees of the array of `start`, and of an array of PINNED memory.
use chai.ManagedArray.Allocate.{allocate}
use chai.Umpire.Concrete.{IsLive, block_of, concrete-ManagerLaws}
use chai.Tests.Worlds.{env}
use chai.Base.{
  Bool, true, false, if◌then◌else◌, ◌≡◌, arith, ◌==◌, ◌⊎◌, some, refl, none, inr, ◌∷◌, [], ℕ, ◌≢◌,
  inl, ◌+◌, ◌≤◌,
}
use chai.World.{PointerRecord, World, new_record, done, empty, ignore, null_record}
use chai.Space.{space_dec, Config, ExecutionSpace, update, pinned, cpu, gpu, spaces}
use chai.Umpire.Concrete.{concrete, concrete-MapLaws}
use chai.ArrayManager.Free.Shared.{IsPinned, deallocations, free_record-pinned}
use chai.ArrayManager.Free.Deallocations.{IsShared, free_record-shared}
use chai.ArrayManager.Free.{free_record}
use chai.Umpire.{nullptr, ManagerLaws, RecordPointer, Pointer}
use chai.Tests.Worlds.{start, written, simulated}
use chai.ArrayManager.Free.Clean.{free_record-find}
use chai.ArrayManager.Move.Coherence.{IsReady}
use chai.ManagedArray.Handle.{ManagedArray, empty_array}
use chai.Tests.Arrays.{four_bytes}
use chai.ManagedArray.Allocate.Pinned.{allocate-IsPinned}
use chai.Space.Facts.{Visited}
use chai.ArrayManager.Reallocate.{reallocate}
use chai.ArrayManager.Reallocate.Shared.{reallocate-shared}
use chai.ArrayManager.Query.{get_pointer_record}
use chai.ArrayManager.Free.Single.{free_record-unowned}

-- A build with PINNED, and with UM or without, and an array of PINNED memory in it.
abbrev shared_build : Bool → Config
shared_build um = record {
  cuda = true;
  hip = false;
  gpu_simulation = false;
  um = um;
  pinned = true;
}

abbrev pinned_record : PointerRecord
pinned_record = record new_record {
  size = 8;
  pointers = update (update (update (λ _. nullptr) cpu 1) gpu 1) pinned 1;
  last_space = pinned;
}

abbrev pinned_start : (um : Bool) → World (concrete (shared_build um))
pinned_start um = record {
  heap = λ r. if r == 2 then some pinned_record else none;
  next_record = 3;
  current_execution_space = ExecutionSpace.none;
  default_allocation_space = cpu;
  pointer_map = (1, 2) ∷ [];
  allocators = λ _. 0;
  locked = false;
  user_callback = empty;
  callbacks_active = true;
  device_synchronize = false;
  synced_since_last_kernel = false;
  umpire = record { last = 1; block = λ _. 0 };
  events = [];
  calls = [];
}

pinned_record-IsPinned : IsPinned (shared_build true) pinned_record 1
unfolding space_dec
pinned_record-IsPinned = record {
  here = λ e. omega arith;
  on_cpu = refl;
  on_gpu = λ _. refl;
  on_pinned = refl;
  not_um = refl;
  own = λ _. refl;
}

pinned_record-others :
    (s : ExecutionSpace) → (pinned_record.pointers s ≡ 1) ⊎ (pinned_record.pointers s ≡ nullptr)
unfolding space_dec
pinned_record-others s = ground arith

pinned_record-IsShared : IsShared pinned_record pinned 1
unfolding space_dec
pinned_record-IsShared = record {
  here = λ e. omega arith;
  on_cpu = refl;
  on_shared = refl;
  others = pinned_record-others;
  own = λ _. refl;
}

written-foreign : (t : ExecutionSpace) → Visited t (spaces simulated) → 9 ≢ written.pointers t
unfolding space_dec
written-foreign t v e = ground arith

free_record-find_example :
    (w' : World env) × (free_record 2 ExecutionSpace.none start ≡ done tt w')
    × ((o : RecordPointer) → w'.heap o ≡ (if o == 2 then none else start.heap o))
    × (w'.locked ≡ false)
    × ((written.pointers cpu ≡ nullptr) ⊎ (env.find (written.pointers cpu) w'.pointer_map ≡ none))
    × (env.find 9 w'.pointer_map ≡ env.find 9 start.pointer_map)
unfolding spaces
free_record-find_example =
    free_record-find (concrete-MapLaws simulated) 2 (λ e. omega arith) start written cpu 9 refl
      (λ e. omega arith) refl (inl refl) (λ e. omega arith) written-foreign

free_record-pinned_example :
    (w' : World (concrete (shared_build true))) × (free_record 2 ExecutionSpace.none
        (pinned_start true)
      ≡ done tt w')
    × (deallocations 1 w'.calls ≡ 3)
free_record-pinned_example =
    free_record-pinned 2 (λ e. omega arith) 1 refl (pinned_start true) pinned_record refl
      (λ e. omega arith) refl refl pinned_record-IsPinned

free_record-shared_example :
    (w' : World (concrete (shared_build false))) × (free_record 2 ExecutionSpace.none
        (pinned_start false)
      ≡ done tt w')
    × (deallocations 1 w'.calls ≡ 1)
free_record-shared_example =
    free_record-shared 2 (λ e. omega arith) (pinned_start false) pinned_record pinned 1
      (λ e. omega arith) refl refl pinned_record-IsShared (inr (refl, refl, refl))

abbrev shared_laws : ManagerLaws (concrete (shared_build true)) ℕ block_of IsLive
shared_laws = concrete-ManagerLaws (shared_build true)

pinned_start-IsReady : IsReady shared_laws (pinned_start true)
pinned_start-IsReady = record { unlocked = refl; map_live = λ q r e. ground arith }

allocate-IsPinned_example :
    (a : ManagedArray) × (w' : World (concrete (shared_build true))) × (p : PointerRecord)
    × (allocate four_bytes empty_array 6 pinned ignore (pinned_start true) ≡ done a w')
    × (w'.heap 3 ≡ some p)
    × (a.pointer_record ≡ 3)
    × IsPinned (shared_build true) p a.active_base_pointer
    × (w'.locked ≡ false)
allocate-IsPinned_example =
    allocate-IsPinned shared_laws (concrete-MapLaws (shared_build true)) four_bytes
      (pinned_start true) 6 ignore (omega arith) refl pinned_start-IsReady (omega arith)

reallocate-shared_example :
    (x : Pointer) × (w' : World (concrete (shared_build true))) × (reallocate 4 1 6 2
        (pinned_start true)
      ≡ done x w')
    × (2 + deallocations 1 (pinned_start true).calls ≤ deallocations 1 w'.calls)
unfolding spaces
reallocate-shared_example =
    reallocate-shared {r = 2} (λ e. omega arith) 4 6 1 (pinned_start true) pinned_record pinned 1
      refl pinned_record-IsShared (λ e. ground arith) (inr (inr (inr (inl refl))))

-- The array of `start`, with memory on the CPU that it does not own.
abbrev unowned : PointerRecord
unowned = record written { owned = λ s. false }

abbrev unowned_start : World env
unowned_start = record start { heap = λ r. if r == 2 then some unowned else none }

free_record-unowned_example :
    (w' : World env) × (free_record 2 cpu unowned_start ≡ done tt w')
    × (w'.heap 2 ≡ some unowned)
    × (env.find 1 w'.pointer_map ≡ none)
    × (get_pointer_record 1 w' ≡ done null_record w')
unfolding spaces space_dec
free_record-unowned_example =
    free_record-unowned 2 cpu (λ e. ground arith) (concrete-MapLaws simulated) unowned_start unowned
      (λ e. omega arith) refl refl (inl refl) (λ e. omega arith) refl
