-- ===== src/Thin/Array/Resize.antt =====
-- Reallocations of a thin ManagedArray.
use chai.Thin.Device.{Build}
use chai.Thin.Device.Laws.{BuildLaws, gpu_malloc_managed_lem, gpu_memcpy_lem, gpu_free_lem}
use chai.ManagedArray.Handle.{Element, ManagedArray, advance}
use chai.Base.{
  length, ℕ, ◌+◌, ◌∷◌, ◌<◌, ◌≤◌, ◌≡◌, true, min, ◌==◌, false, arith, some, ◌*◌, size_mod,
  if◌then◌else◌, Bool-cases, inl, inr, ◌∙◌, ap, refl,
}
use chai.Thin.Heap.{Heap, drop_block, realloc, copy_cells, replace_block, done, bytes_of, reaches}
use chai.Thin.Heap.Facts.{
  IsHeap, bytes_of-below, with_block, malloc-fits, bytes_of-reaches, drop_block-Apart,
  drop_block-length,
}
use chai.Thin.Array.Elements.{IsOwner, element-fits, pick_lem, IsOwner-reaches}
use chai.Thin.Array.{bytes, move_memory, reallocate, pick}
use chai.Umpire.{nullptr}
use native.Mathlib.Nat.{mul-le-mul_left}

module _ {A : Type 0} {B : Build A} (laws : BuildLaws B) (T : Element) (a : ManagedArray)
    (new_elems : ℕ) (h : Heap A) (heap : IsHeap h) (o : IsOwner T a h) where
  -- The heap with the new block in place of the old one, whose first `n` bytes it has.
  abbrev pub resized : ℕ → Heap A
  resized n = record h {
    blocks =
        record { base = h.next; bytes = bytes T new_elems } ∷ drop_block h.blocks a.active_pointer;
    next = h.next + bytes T new_elems + 1;
    cell = copy_cells h.next a.active_pointer n h.cell;
  }

  abbrev pub resized_array : ManagedArray
  resized_array = record a {
    elems = new_elems;
    active_pointer = h.next;
    active_base_pointer = h.next;
  }

  old_below : a.active_pointer + bytes T a.elems < h.next
  old_below = bytes_of-below h.blocks h.next a.active_pointer (bytes T a.elems) heap o.owns

  module _ (fits : h.next + bytes T new_elems ≤ h.limit) where
    realloc_lem :
        0 < bytes T new_elems
        → realloc a.active_pointer (bytes T new_elems) h
          ≡ done h.next (resized (min (bytes T a.elems) (bytes T new_elems)))
    unfolding realloc replace_block
    realloc_lem pos =
        let some_bytes : (bytes T new_elems == 0) ≡ false = ground arith in
        let next_real : (h.next == nullptr) ≡ false = ground (arith, old_below) in
        let apart : (h.next == a.active_pointer) ≡ false = ground (arith, old_below) in
        ground (arith, o.real, o.owns, malloc-fits (bytes T new_elems) h fits)

    managed_lem :
        B.config.um ≡ true
        → bytes T a.elems ≤ bytes T new_elems
        → move_memory B T a new_elems h ≡ done h.next (resized (bytes T a.elems))
    unfolding move_memory
    managed_lem um grows =
        let w : Heap A = with_block (bytes T new_elems) h in
        let c : Heap A = record w {
          cell = copy_cells h.next a.active_pointer (bytes T a.elems) h.cell;
        } in
        let apart : (h.next == a.active_pointer) ≡ false = ground (arith, old_below) in
        let held : bytes_of w.blocks a.active_pointer ≡ some (bytes T a.elems) =
          ground (arith, o.owns) in
        let to_new : reaches w.blocks h.next (bytes T a.elems) ≡ true = ground arith in
        let from_old : reaches w.blocks a.active_pointer (bytes T a.elems) ≡ true =
          bytes_of-reaches w.blocks a.active_pointer a.active_pointer (bytes T a.elems)
            (bytes T a.elems) held (omega arith) (omega arith) in
        ground (
          arith,
          gpu_malloc_managed_lem laws nullptr (bytes T new_elems) h um fits,
          gpu_memcpy_lem laws h.next a.active_pointer (bytes T a.elems) w um to_new from_old,
          gpu_free_lem laws a.active_pointer (bytes T a.elems) c um o.real held,
        )

    module _ (sized : T.sizeof_t * new_elems < size_mod) (some_elems : 0 < bytes T new_elems) where
      resized-IsHeap : (n : ℕ) → IsHeap (resized n)
      resized-IsHeap n = (omega arith, drop_block-Apart h.blocks h.next a.active_pointer heap)

      resized-IsOwner : (n : ℕ) → IsOwner T resized_array (resized n)
      resized-IsOwner n = record {
        whole = o.whole;
        real = λ e. omega (arith, old_below);
        length_fits = sized;
        owns = ground arith;
      }

      resized-length : (n : ℕ) → length (resized n).blocks ≡ length h.blocks
      resized-length n = drop_block-length h.blocks a.active_pointer (bytes T a.elems) o.owns

      -- How many of the old bytes are kept.
      abbrev kept : ℕ
      kept = if B.config.um then bytes T a.elems else min (bytes T a.elems) (bytes T new_elems)

      reallocate_lem :
          (B.config.um ≡ true → a.elems ≤ new_elems)
          → reallocate B T a new_elems h ≡ done resized_array (resized kept)
      unfolding reallocate move_memory
      reallocate_lem grows = elim (Bool-cases B.config.um) [
        | inl um ↦
            let longer : bytes T a.elems ≤ bytes T new_elems =
              omega (arith, mul-le-mul_left T.sizeof_t (grows um), o.length_fits, sized) in
            ground (arith, o.whole, managed_lem um longer)
        | inr plain ↦ ground (arith, o.whole, realloc_lem some_elems)
      ]

      resized-cell :
          (i : ℕ)
          → i < a.elems
          → i < new_elems
          → 0 < T.sizeof_t
          → (resized kept).cell (advance T h.next i) ≡ h.cell (advance T a.active_pointer i)
      resized-cell i l m pos =
          let in_old : i * T.sizeof_t < bytes T a.elems =
            omega (arith, element-fits T.sizeof_t i a.elems l, o.length_fits) in
          let in_new : i * T.sizeof_t < bytes T new_elems =
            omega (arith, element-fits T.sizeof_t i new_elems m, sized) in
          elim (Bool-cases B.config.um) [ inl um ↦ ground arith | inr plain ↦ ground arith ]

      -- Reallocating an array that owns its block, to any positive length in a build without UM and to
      -- no smaller one in a build with UM, yields an array of the new length with a block of its own,
      -- leaves as many blocks as before, keeps the heap well formed, and keeps each element that both
      -- lengths have: a pick yields what it yielded before. The new block is not empty, its length in
      -- bytes is that of the elements, there is room for it, the heap is well formed, and the device's
      -- runtimes meet their laws.
      pub reallocate-pick :
          (B.config.um ≡ true → a.elems ≤ new_elems)
          → 0 < T.sizeof_t
          → (i : ℕ) → i < a.elems
          → i < new_elems
          → (a' : ManagedArray) × (h' : Heap A) × (x : A) × (reallocate B T a new_elems h
              ≡ done a' h')
            × (a'.elems ≡ new_elems)
            × IsOwner T a' h'
            × IsHeap h'
            × (length h'.blocks ≡ length h.blocks)
            × (pick B T a i h ≡ done x h)
            × (pick B T a' i h' ≡ done x h')
      reallocate-pick grows pos i l m = (
        resized_array,
        resized kept,
        h.cell (advance T a.active_pointer i),
        reallocate_lem grows,
        refl,
        resized-IsOwner kept,
        resized-IsHeap kept,
        resized-length kept,
        pick_lem laws T a h i (IsOwner-reaches T a h i o l),
        pick_lem laws T resized_array (resized kept) i
              (IsOwner-reaches T resized_array (resized kept) i (resized-IsOwner kept) m)
            ∙ ap (λ x. done x (resized kept)) (resized-cell i l m pos),
      )
