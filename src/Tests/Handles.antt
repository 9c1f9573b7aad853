-- ===== src/Tests/Handles.antt =====
-- Handles of the array of `start`, of a new array, and of a copy.
use chai.ManagedArray.Handle.{ManagedArray, empty_array, size, is_nullptr, to_bool}
use chai.World.{World, PointerRecord, ignore, done, null_record}
use chai.Space.{space_dec, gpu, cpu, ExecutionSpace, spaces}
use chai.Base.{true, ◌≡◌, false, some, ◌≢◌, arith, refl, none, ◌⊎◌, inl}
use chai.Umpire.{nullptr}
use chai.ManagedArray.Allocate.{free, allocate}
use chai.ManagedArray.Move.{move}
use chai.ArrayManager.Create.{deep_copy_record}
use chai.Tests.Arrays.{four_bytes}
use chai.Tests.Worlds.{env, start, written, simulated}
use chai.ManagedArray.Move.Coherence.{pointed, move-contents}
use chai.ManagedArray.Slices.{IsHandle}
use chai.Tests.Moves.{laws, start-IsReady, written-Latest, written-IsMovable}
use chai.ArrayManager.Create.Copies.{deep_copy_record-contents}
use chai.Umpire.Concrete.{concrete-MapLaws}
use chai.ArrayManager.Move.Coherence.{IsReady}
use chai.ManagedArray.Allocate.Handle.{allocate-IsHandle}
use chai.ManagedArray.Allocate.Release.{free-free}

abbrev first_four : ManagedArray
first_four = record empty_array {
  active_pointer = 5;
  active_base_pointer = 1;
  elems = 1;
  offset = 1;
  pointer_record = 2;
  is_slice = true;
}

move-contents_example :
    (w' : World env) × (p' : PointerRecord) × (move four_bytes first_four gpu false start
      ≡ done (pointed four_bytes first_four (p'.pointers gpu)) w')
    × (w'.umpire.block (p'.pointers gpu) ≡ 42)
    × (w'.heap 2 ≡ some p')
    × (p'.last_space ≡ cpu)
move-contents_example =
    move-contents laws four_bytes first_four gpu false (concrete-MapLaws simulated) start-IsReady
      written-Latest (λ e. cc) written-IsMovable

allocate-IsHandle_example :
    (a : ManagedArray) × (w' : World env) × (p : PointerRecord) × (allocate four_bytes empty_array 6
        gpu ignore start
      ≡ done a w')
    × IsHandle four_bytes a
    × (size a ≡ 6)
    × (a.pointer_record ≡ 3)
    × (w'.heap 3 ≡ some p)
    × (p.size ≡ 24)
    × (p.user_callback ≡ ignore)
    × (p.pointers gpu ≡ a.active_base_pointer)
    × (a.active_base_pointer ≢ nullptr)
    × (env.find a.active_base_pointer w'.pointer_map ≡ some 3)
    × IsReady laws w'
allocate-IsHandle_example =
    allocate-IsHandle laws (concrete-MapLaws simulated) four_bytes start 6 gpu ignore (omega arith)
      (omega arith) (λ e. cc) (λ e. cc) (λ e. cc) start-IsReady (omega arith)

deep_copy_record-contents_example :
    (w' : World env) × (q : PointerRecord) × (deep_copy_record 2 start ≡ done 3 w')
    × (w'.heap 3 ≡ some q)
    × (w'.heap 2 ≡ some written)
    × (q.size ≡ 8)
    × (q.last_space ≡ cpu)
    × (q.touched cpu ≡ true)
    × (q.pointers cpu ≢ written.pointers cpu)
    × (w'.umpire.block (q.pointers cpu) ≡ start.umpire.block (written.pointers cpu))
    × (w'.umpire.block (written.pointers cpu) ≡ start.umpire.block (written.pointers cpu))
unfolding space_dec
deep_copy_record-contents_example =
    deep_copy_record-contents laws (concrete-MapLaws simulated) start 2 written start-IsReady refl
      (omega arith) (λ e. omega arith) (λ e. omega arith)

abbrev whole_array : ManagedArray
whole_array = record empty_array {
  active_pointer = 1;
  active_base_pointer = 1;
  elems = 2;
  pointer_record = 2;
}

free-free_example :
    (a' : ManagedArray) × (w' : World env) × (free four_bytes whole_array ExecutionSpace.none start
      ≡ done a' w')
    × (w'.heap 2 ≡ none)
    × ((written.pointers cpu ≡ nullptr) ⊎ (env.find (written.pointers cpu) w'.pointer_map ≡ none))
    × (is_nullptr a' ≡ true)
    × (to_bool a' ≡ false)
    × (a'.pointer_record ≡ null_record)
    × (free four_bytes a' ExecutionSpace.none w' ≡ done a' w')
unfolding spaces
free-free_example =
    free-free (concrete-MapLaws simulated) four_bytes whole_array start written cpu refl
      (λ e. omega arith) (omega arith) (λ e. omega arith) (λ e. omega arith) refl refl (inl refl)
