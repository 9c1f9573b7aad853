-- ===== src/Thin/Array/Lifecycle.antt =====
-- Allocations and frees of a thin ManagedArray, one after another.
use chai.Base.{
  ℕ, List, ◌≡◌, false, ◌∷◌, inl, ◌⊎◌, arith, dec_lt, ◌≢◌, [], inr, ◌+◌, some, refl, min, Bool-cases,
  ◌==◌, ap, ◌∙◌,
}
use chai.Thin.Device.{Build}
use chai.ManagedArray.Handle.{ManagedArray, Element}
use chai.Thin.Heap.{
  Result, Heap, malloc, pure, done, drop_block, ◌>>=◌, free_block, bytes_of, copy_cells, realloc,
  replace_block, bind,
}
use chai.Space.{ExecutionSpace, space_dec, cpu}
use chai.Umpire.{Pointer, nullptr}
use chai.Thin.Array.{allocate, reallocate, free, new_memory, bytes, release_memory, move_memory}
use chai.Thin.Heap.Facts.{
  IsHeap, with_block, drop_block-Apart, Apart-positive, malloc-full, malloc-fits, bytes_of-below,
  with_block-IsHeap,
}

-- The call of a member function on one handle that changes its memory.
pub data Call : Type 0 where
  allocates : ℕ → ExecutionSpace → Call
  reallocates : ℕ → Call
  frees : ExecutionSpace → Call

module _ {A : Type 0} (B : Build A) (T : Element) where
  unfoldable pub run_call : Call → ManagedArray → Heap A → Result A ManagedArray
  run_call (allocates elems space) a = allocate B T a elems space
  run_call (reallocates elems) a = reallocate B T a elems
  run_call (frees space) a = free B T a space

  unfoldable pub run_calls : List Call → ManagedArray → Heap A → Result A ManagedArray
  unfolding run_call
  run_calls [] a = pure a
  run_calls (c ∷ cs) a = run_call c a >>= run_calls cs

-- The heap is well formed, and the handle is no slice and points to nothing or to a block.
pub record IsSound {A : Type 0} (a : ManagedArray) (h : Heap A) : Type 0 where
  pub heap : IsHeap h
  pub whole : a.is_slice ≡ false
  pub points :
      (a.active_pointer ≡ nullptr)
      ⊎ ((a.active_pointer ≢ nullptr) × ((n : ℕ) × (bytes_of h.blocks a.active_pointer ≡ some n)))

-- A call that ends, in a sound state.
pub record Ends {A : Type 0} (run : Result A ManagedArray) : Type 0 where
  pub handle : ManagedArray
  pub heap : Heap A
  pub ends : run ≡ done handle heap
  pub sound : IsSound handle heap

-- A handle that points to a new block.
abbrev pub pointing : ManagedArray → ℕ → Pointer → ManagedArray
pointing a elems p = record a { elems = elems; active_pointer = p; active_base_pointer = p }

pointing-new :
    {A : Type 0} (a : ManagedArray) (elems n : ℕ) (h : Heap A)
    → a.is_slice ≡ false
    → IsHeap h
    → IsSound (pointing a elems h.next) (with_block n h)
pointing-new a elems n h whole heap =
    let pos = Apart-positive h.blocks h.next heap in
    record {
      heap = (omega arith, heap);
      whole = whole;
      points = inr ((λ e. omega arith), (n, ground arith));
    }

pointing-null :
    {A : Type 0} (a : ManagedArray) (elems : ℕ) (h : Heap A)
    → a.is_slice ≡ false
    → IsHeap h
    → IsSound (pointing a elems nullptr) h
pointing-null a elems h whole heap = record { heap = heap; whole = whole; points = inl refl }

-- `malloc` yields a new block, or null where there is no room.
malloc-cases :
    {A : Type 0} (n : ℕ) (h : Heap A)
    → (malloc n h ≡ done h.next (with_block n h)) ⊎ (malloc n h ≡ done nullptr h)
malloc-cases n h = elim (dec_lt h.limit (h.next + n)) [
  | yes full ↦ inr (malloc-full n h full)
  | no fits ↦ inl (malloc-fits n h (omega arith))
]

module _ {A : Type 0} (B : Build A) (T : Element) (plain : B.config.um ≡ false) (a : ManagedArray)
    (h : Heap A) (s : IsSound a h) where
  allocate-Ends : (elems : ℕ) (space : ExecutionSpace) → Ends (allocate B T a elems space h)
  unfolding allocate new_memory
  allocate-Ends elems space = elim (malloc-cases (bytes T elems) h) [
    | inl new ↦ record {
      handle = pointing a elems h.next;
      heap = with_block (bytes T elems) h;
      ends = ground (arith, s.whole);
      sound = pointing-new a elems (bytes T elems) h s.whole s.heap;
    }
    | inr full ↦ record {
      handle = pointing a elems nullptr;
      heap = h;
      ends = ground (arith, s.whole);
      sound = pointing-null a elems h s.whole s.heap;
    }
  ]

  -- The heap without the array's block.
  abbrev dropped : Heap A
  dropped = record h { blocks = drop_block h.blocks a.active_pointer }

  dropped-IsHeap : IsHeap dropped
  dropped-IsHeap = drop_block-Apart h.blocks h.next a.active_pointer s.heap

  released : (h' : Heap A) × (release_memory B a.active_pointer h ≡ done tt h') × IsHeap h'
  unfolding release_memory free_block
  released = elim s.points [
    | inl null ↦ (h, ground arith, s.heap)
    | inr (real, (n, block)) ↦ (dropped, ground arith, dropped-IsHeap)
  ]

  free-Ends : (space : ExecutionSpace) → Ends (free B T a space h)
  unfolding free space_dec
  free-Ends space =
      let (h', runs, heap) = released in
      let emptied : IsSound (pointing a 0 nullptr) h' = pointing-null a 0 h' s.whole heap in
      elim (space_dec space cpu) [
        | yes on_cpu ↦ record {
          handle = pointing a 0 nullptr;
          heap = h';
          ends = ground (arith, s.whole);
          sound = emptied;
        }
        | no off_cpu ↦ elim (space_dec space ExecutionSpace.none) [
          | yes nowhere ↦ record {
            handle = pointing a 0 nullptr;
            heap = h';
            ends = ground (arith, s.whole);
            sound = emptied;
          }
          | no elsewhere ↦ record {
            handle = a;
            heap = h;
            ends = ground (arith, s.whole);
            sound = s;
          }
        ]
      ]

  -- The heap once realloc has put a new block in place of the array's.
  abbrev replaced : ℕ → ℕ → Heap A
  replaced old n = record (with_block n h) {
    blocks = drop_block (with_block n h).blocks a.active_pointer;
    cell = copy_cells h.next a.active_pointer (min old n) h.cell;
  }

  reallocate-Ends : (elems : ℕ) → Ends (reallocate B T a elems h)
  unfolding reallocate move_memory realloc free_block replace_block
  reallocate-Ends elems = elim s.points [
    | inl null ↦ elim (malloc-cases (bytes T elems) h) [
      | inl new ↦ record {
        handle = pointing a elems h.next;
        heap = with_block (bytes T elems) h;
        ends = ground (arith, s.whole);
        sound = pointing-new a elems (bytes T elems) h s.whole s.heap;
      }
      | inr full ↦ record {
        handle = pointing a elems nullptr;
        heap = h;
        ends = ground (arith, s.whole);
        sound = pointing-null a elems h s.whole s.heap;
      }
    ]
    | inr (real, (old, block)) ↦ elim (Bool-cases (bytes T elems == 0)) [
      | inl empty ↦ record {
        handle = pointing a elems nullptr;
        heap = dropped;
        ends = ground (arith, s.whole);
        sound = pointing-null a elems dropped s.whole dropped-IsHeap;
      }
      | inr some_bytes ↦ elim (malloc-cases (bytes T elems) h) [
        | inl new ↦
            let below = bytes_of-below h.blocks h.next a.active_pointer old s.heap block in
            record {
              handle = pointing a elems h.next;
              heap = replaced old (bytes T elems);
              ends = ground (arith, s.whole);
              sound = record {
                heap =
                    drop_block-Apart (with_block (bytes T elems) h).blocks _ a.active_pointer
                      (with_block-IsHeap (bytes T elems) h s.heap);
                whole = s.whole;
                points = inr ((λ e. omega arith), (bytes T elems, ground arith));
              };
            }
        | inr full ↦ record {
          handle = pointing a elems nullptr;
          heap = h;
          ends = ground (arith, s.whole);
          sound = pointing-null a elems h s.whole s.heap;
        }
      ]
    ]
  ]

  run_call-Ends : (c : Call) → Ends (run_call B T c a h)
  unfolding run_call
  run_call-Ends (allocates elems space) = allocate-Ends elems space
  run_call-Ends (reallocates elems) = reallocate-Ends elems
  run_call-Ends (frees space) = free-Ends space

-- In a build without UM, any sequence of allocations, reallocations and frees of one handle that is no
-- slice ends without undefined behaviour, whatever the element counts and the spaces, and also where
-- memory is used up; the heap stays well formed, and the handle points to nothing or to a live block,
-- if it was so before.
pub run_calls-IsSound :
    {A : Type 0} (B : Build A) (T : Element)
    → B.config.um ≡ false
    → (cs : List Call) (a : ManagedArray) (h : Heap A) → IsSound a h
    → (a' : ManagedArray) × (h' : Heap A) × (run_calls B T cs a h ≡ done a' h') × IsSound a' h'
unfolding run_calls
run_calls-IsSound B T plain [] a h s = (a, h, refl, s)
run_calls-IsSound B T plain (c ∷ cs) a h s =
    let first = run_call-Ends B T plain a h s c in
    let (a', h', runs, sound) =
      run_calls-IsSound B T plain cs first.handle first.heap first.sound in
    (a', h', ap (λ r. bind r (run_calls B T cs)) first.ends ∙ runs, sound)
