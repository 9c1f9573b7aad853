-- ===== src/Tests/Thin.antt =====
-- A thin array of four elements of four bytes, in a heap with room for 100 bytes.
use chai.Thin.Device.{Runtime, Build}
use chai.Thin.Device.Laws.{RuntimeLaws, BuildLaws}
use chai.Thin.Array.Lifecycle.{allocates, frees, reallocates}
use chai.Base.{
  length, none, some, Bool, ℕ, arith, true, [], refl, false, if◌then◌else◌, leb, ◌+◌, ◌==◌, ◌≡◌,
  ◌∷◌, ◌≢◌, suc, inl,
}
use chai.Thin.Heap.{
  undefined, exited, done, Heap, malloc, bytes_of, drop_block, reaches, copy_cells,
}
use chai.ManagedArray.Handle.{ManagedArray, advance}
use chai.Thin.Array.Elements.{IsOwner, set-pick}
use chai.Thin.Handle.{empty_array, not_nullptr, get_active_base_pointer}
use chai.Tests.Arrays.{four_bytes}
use chai.Thin.Heap.Facts.{with_block, IsHeap}
use chai.Umpire.{nullptr}
use chai.Thin.Array.{set, reallocate, pick, change}
use chai.Thin.Array.Lifecycle.{run_calls, reallocates, IsSound, run_calls-IsSound}
use chai.Space.{cpu, gpu}
use chai.Thin.Array.Failures.{reallocate-shrink, reallocate-full}
use chai.Thin.Array.Resize.{reallocate-pick}

-- A runtime whose managed memory is the C library's.
abbrev plain_runtime : Runtime ℕ
plain_runtime = record {
  runtime_malloc = λ n h. elim (malloc n h) [
    | undefined ↦ undefined
    | exited k ↦ exited k
    | done p h' ↦ done (0, p) h'
  ];
  runtime_malloc_managed = λ n h.
      if leb (h.next + n) h.limit then done (0, h.next) (with_block n h) else done (2, nullptr) h;
  runtime_free = λ p h. if p == nullptr then done 0 h else elim (bytes_of h.blocks p) [
    | none ↦ done 1 h
    | some n ↦ done 0 (record h { blocks = drop_block h.blocks p })
  ];
  runtime_memcpy = λ dst src n h.
      if reaches h.blocks dst n
      then (if reaches h.blocks src n
          then done 0 (record h { cell = copy_cells dst src n h.cell })
          else undefined)
      else undefined;
  runtime_synchronize = λ h. done 0 h;
}

plain_runtime-laws : RuntimeLaws plain_runtime
plain_runtime-laws = record {
  waits = λ h. refl;
  allocates = λ n h fits. ground arith;
  copies = λ dst src n h a b. ground arith;
  past_end = λ dst src n h a. ground arith;
  frees_null = λ h. refl;
  frees = λ p n h real e. ground arith;
}

-- A build with UM or without, on CUDA, that checks the runtime's errors.
abbrev build : Bool → Build ℕ
build um = record {
  config = record { cuda = true; hip = false; gpu_simulation = false; um = um; pinned = false };
  gpu_error_checking = true;
  hip_runtime = plain_runtime;
  cuda_runtime = plain_runtime;
}

build-laws : (um : Bool) → BuildLaws (build um)
build-laws um = record {
  hip_laws = plain_runtime-laws;
  cuda_laws = plain_runtime-laws;
  has_runtime = λ e. refl;
}

abbrev empty_heap : Heap ℕ
empty_heap = record { blocks = []; next = 8; limit = 100; cell = λ p. p }

abbrev four_heap : Heap ℕ
four_heap = with_block 16 empty_heap

abbrev four : ManagedArray
four = record empty_array { elems = 4; active_pointer = 8; active_base_pointer = 8 }

four-IsOwner : IsOwner four_bytes four four_heap
four-IsOwner = record {
  whole = refl;
  real = λ e. omega arith;
  length_fits = omega arith;
  owns = refl;
}

four-IsHeap : IsHeap four_heap
four-IsHeap = (omega arith, omega arith)

-- In a build with UM, element 2 set to 70, and its increment.
set-pick_example :
    (h' : Heap ℕ) × (set (build true) four_bytes four 2 70 four_heap ≡ done tt h')
    × (pick (build true) four_bytes four 2 h' ≡ done 70 h')
    × ((j : ℕ) → h'.cell (advance four_bytes 8 j) ≡ (if j == 2 then 70 else advance four_bytes 8 j))
    × (h'.blocks ≡ four_heap.blocks)
    × (pick (build true) four_bytes four 2 four_heap ≡ done 16 four_heap)
    × (change (build true) four_bytes suc four 2 four_heap
        ≡ set (build true) four_bytes four 2 17 four_heap)
set-pick_example = set-pick (build-laws true) four_bytes four four_heap 2 refl (omega arith) 70 suc

-- From four elements to six, with UM.
reallocate-pick_example :
    (a' : ManagedArray) × (h' : Heap ℕ) × (x : ℕ) × (reallocate
        (build true)
        four_bytes
        four
        6
        four_heap
      ≡ done a' h')
    × (a'.elems ≡ 6)
    × IsOwner four_bytes a' h'
    × IsHeap h'
    × (length h'.blocks ≡ 1)
    × (pick (build true) four_bytes four 3 four_heap ≡ done x four_heap)
    × (pick (build true) four_bytes a' 3 h' ≡ done x h')
reallocate-pick_example =
    reallocate-pick (build-laws true) four_bytes four 6 four_heap four-IsHeap four-IsOwner
      (omega arith) (omega arith) (omega arith) (λ e. omega arith) (omega arith) 3 (omega arith)
      (omega arith)

reallocate-full_example :
    (a' : ManagedArray) × (reallocate (build false) four_bytes four 40 four_heap
      ≡ done a' four_heap)
    × (not_nullptr a' ≡ false)
    × (get_active_base_pointer a' ≡ nullptr)
    × (a'.elems ≡ 40)
    × (bytes_of four_heap.blocks 8 ≡ some 16)
    × (four.active_pointer ≢ nullptr)
reallocate-full_example =
    reallocate-full (build false) four_bytes four 40 four_heap four-IsHeap four-IsOwner refl
      (omega arith) (omega arith)

reallocate-shrink_example : reallocate (build true) four_bytes four 3 four_heap ≡ undefined
reallocate-shrink_example =
    reallocate-shrink (build true) four_bytes four 3 four_heap four-IsHeap four-IsOwner
      (build-laws true) refl (omega arith) (omega arith)

-- An allocation for which there is no room, and a reallocation to nothing, among others.
run_calls-IsSound_example :
    (a' : ManagedArray) × (h' : Heap ℕ) × (run_calls
        (build false)
        four_bytes
        (allocates 3 cpu ∷ reallocates 5 ∷ frees gpu ∷ reallocates 0 ∷ allocates 90 cpu ∷ [])
        empty_array
        empty_heap
      ≡ done a' h')
    × IsSound a' h'
run_calls-IsSound_example =
    run_calls-IsSound (build false) four_bytes refl
      (allocates 3 cpu ∷ reallocates 5 ∷ frees gpu ∷ reallocates 0 ∷ allocates 90 cpu ∷ [])
      empty_array empty_heap (record { heap = omega arith; whole = refl; points = inl refl })
