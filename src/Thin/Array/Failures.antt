-- ===== src/Thin/Array/Failures.antt =====
-- Reallocations of a thin ManagedArray that go wrong.
use chai.Thin.Device.{Build}
use chai.ManagedArray.Handle.{Element, ManagedArray}
use chai.Base.{ℕ, ◌≡◌, true, ◌+◌, false, ◌<◌, ◌≤◌, some, arith, ◌≢◌, ◌==◌, refl}
use chai.Thin.Heap.{Heap, realloc, replace_block, done, undefined, bytes_of, reaches}
use chai.Thin.Heap.Facts.{IsHeap, with_block, reaches-above, malloc-full}
use chai.Thin.Array.Elements.{IsOwner}
use chai.Thin.Array.{reallocate, move_memory, bytes}
use chai.Thin.Device.Laws.{BuildLaws, gpu_malloc_managed_lem, gpu_memcpy-past_end}
use chai.Thin.Handle.{not_nullptr, get_active_base_pointer}
use chai.Umpire.{nullptr}

module _ {A : Type 0} (B : Build A) (T : Element) (a : ManagedArray) (new_elems : ℕ) (h : Heap A)
    (heap : IsHeap h) (o : IsOwner T a h) where
  -- In a build without UM, reallocating an array to more bytes than there is room for yields a handle
  -- that is equal to nullptr and has the new element count, and leaves the old block allocated, to
  -- which the handle has no pointer any more. The array owns its block, and the heap is well formed.
  pub reallocate-full :
      B.config.um ≡ false
      → h.limit < h.next + bytes T new_elems
      → 0 < bytes T new_elems
      → (a' : ManagedArray) × (reallocate B T a new_elems h ≡ done a' h)
        × (not_nullptr a' ≡ false)
        × (get_active_base_pointer a' ≡ nullptr)
        × (a'.elems ≡ new_elems)
        × (bytes_of h.blocks a.active_pointer ≡ some (bytes T a.elems))
        × (a.active_pointer ≢ nullptr)
  unfolding reallocate move_memory realloc replace_block not_nullptr get_active_base_pointer
  reallocate-full plain full pos = (
    record a { elems = new_elems; active_pointer = nullptr; active_base_pointer = nullptr },
    (let some_bytes : (bytes T new_elems == 0) ≡ false = ground arith in
        ground (arith, o.whole, o.real, o.owns, malloc-full (bytes T new_elems) h full)),
    refl,
    refl,
    refl,
    o.owns,
    o.real,
  )

  -- In a build with UM, reallocating an array to fewer bytes copies all the bytes of the old block into
  -- the new one, past its end, which is undefined behaviour. The array owns its block, there is room
  -- for the new one, the heap is well formed, and the device's runtimes meet their laws.
  pub reallocate-shrink :
      BuildLaws B
      → B.config.um ≡ true
      → h.next + bytes T new_elems ≤ h.limit
      → bytes T new_elems < bytes T a.elems
      → reallocate B T a new_elems h ≡ undefined
  unfolding reallocate move_memory
  reallocate-shrink laws um fits shorter =
      let w : Heap A = with_block (bytes T new_elems) h in
      let past : reaches w.blocks h.next (bytes T a.elems) ≡ false = ground (
        arith,
        reaches-above h.blocks h.next h.next (bytes T a.elems) heap (omega arith) (omega arith),
      ) in
      ground (
        arith,
        o.whole,
        gpu_malloc_managed_lem laws nullptr (bytes T new_elems) h um fits,
        gpu_memcpy-past_end laws h.next a.active_pointer (bytes T a.elems) w um past,
      )
