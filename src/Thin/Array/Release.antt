-- ===== src/Thin/Array/Release.antt =====
-- A thin ManagedArray from its allocation to its free.
use chai.Thin.Array.{allocate, free, bytes}
use chai.Space.{space_dec, ExecutionSpace, cpu}
use chai.Thin.Handle.{is_nullptr}
use chai.Thin.Device.{Build}
use chai.Thin.Device.Laws.{BuildLaws, release_memory_lem, release_memory-null, new_memory_lem}
use chai.ManagedArray.Handle.{Element, ManagedArray}
use chai.Base.{ℕ, ◌≡◌, false, ◌*◌, ◌<◌, size_mod, ◌+◌, ◌≤◌, true, arith, refl}
use chai.Thin.Heap.{Heap, done, drop_block}
use chai.Thin.Heap.Facts.{IsHeap, Apart-positive, with_block}
use chai.Thin.Array.Elements.{IsOwner}
use chai.Thin.Array.Lifecycle.{pointing}
use chai.Umpire.{nullptr}

-- Allocating a handle that is no slice, where there is room, gives it a block of its own and keeps the
-- heap well formed; a free of it in NONE or on the CPU then leaves the blocks as they were before and a
-- handle equal to nullptr, and a second free does nothing. The elements' bytes fit in size_t, and the
-- device's runtimes meet their laws.
allocate-free :
    {A : Type 0} {B : Build A} (laws : BuildLaws B) (T : Element) (a : ManagedArray) (elems : ℕ)
    (space : ExecutionSpace) (h : Heap A)
    → a.is_slice ≡ false
    → IsHeap h
    → T.sizeof_t * elems < size_mod
    → h.next + bytes T elems ≤ h.limit
    → (a' : ManagedArray) × (h' : Heap A) × (a'' : ManagedArray) × (h'' : Heap A) × (allocate B T a
          elems space h
        ≡ done a' h')
      × IsOwner T a' h'
      × (a'.elems ≡ elems)
      × IsHeap h'
      × (free B T a' ExecutionSpace.none h' ≡ done a'' h'')
      × (free B T a' cpu h' ≡ done a'' h'')
      × (h''.blocks ≡ h.blocks)
      × (is_nullptr a'' ≡ true)
      × (free B T a'' ExecutionSpace.none h'' ≡ done a'' h'')
unfolding allocate free space_dec is_nullptr
allocate-free {A} {B} laws T a elems space h whole heap sized fits =
    let n : ℕ = bytes T elems in
    let pos = Apart-positive h.blocks h.next heap in
    let w : Heap A = with_block n h in
    let back : Heap A = record w { blocks = drop_block w.blocks h.next } in
    let freed = release_memory_lem laws h.next n w (λ e. omega arith) (ground arith) in
    let again = release_memory-null laws back in
    (
      pointing a elems h.next,
      w,
      pointing a 0 nullptr,
      back,
      ground (arith, whole, new_memory_lem laws T a elems h fits),
      record { whole = whole; real = λ e. omega arith; length_fits = sized; owns = ground arith },
      refl,
      (omega arith, heap),
      ground (arith, whole, freed),
      ground (arith, whole, freed),
      ground arith,
      refl,
      ground (arith, whole, again),
    )
