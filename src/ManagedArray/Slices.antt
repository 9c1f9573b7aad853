-- ===== src/ManagedArray/Slices.antt =====
-- The elements of a slice (ManagedArray::slice), and its bounds check.
use chai.Base.{ℕ, ◌≡◌, ◌+◌, ◌≢◌, ◌≤◌, true, arith, ◌<◌, size_mod, ◌%◌, ◌-◌, ◌∙◌, ap, refl, sym}
use chai.ManagedArray.Handle.{
  ManagedArray, Element, at, size, slice, slice_elems, to_the_end, advance, empty_array,
}

-- The active pointer is the base, moved by the offset, and the counts are of size_t.
pub record IsHandle (T : Element) (a : ManagedArray) : Type 0 where
  pub active : a.active_pointer ≡ advance T a.active_base_pointer a.offset
  pub fits : a.offset + a.elems < size_mod

module _ (T : Element) (a : ManagedArray) where
  -- The slice of a range: `n` elements from `offset` on.
  abbrev pub range : ℕ → ℕ → ManagedArray
  range offset n = record {
    active_pointer = advance T a.active_base_pointer (offset + a.offset);
    active_base_pointer = a.active_base_pointer;
    has_manager = a.has_manager;
    elems = n;
    offset = offset + a.offset;
    pointer_record = a.pointer_record;
    is_slice = true;
  }

  slice-range :
      (offset elems : ℕ)
      → a.offset + a.elems < size_mod
      → offset + slice_elems a offset elems ≤ a.elems
      → slice T a offset elems ≡ range offset (slice_elems a offset elems)
  unfolding slice size
  slice-range offset elems fits within =
      let small : (offset + slice_elems a offset elems) % size_mod
          ≡ offset + slice_elems a offset elems =
        omega arith in
      let start : (offset + a.offset) % size_mod ≡ offset + a.offset = omega arith in
      ground (arith, small, start)

  slice_elems-given : (offset elems : ℕ) → elems ≢ to_the_end → slice_elems a offset elems ≡ elems
  unfolding slice_elems
  slice_elems-given offset elems h = ground arith

  slice_elems-default :
      (offset : ℕ)
      → offset ≤ a.elems
      → a.elems < size_mod
      → slice_elems a offset to_the_end ≡ a.elems - offset
  unfolding slice_elems size
  slice_elems-default offset h k = ground arith

-- A slice by a count, as a range.
slice-given :
    (T : Element) (a : ManagedArray) (offset elems : ℕ)
    → a.offset + a.elems < size_mod
    → offset + elems ≤ a.elems
    → elems ≢ to_the_end
    → slice T a offset elems ≡ range T a offset elems
slice-given T a offset elems fits within given =
    let n : slice_elems a offset elems ≡ elems = slice_elems-given T a offset elems given in
    slice-range T a offset elems fits (omega (arith, n)) ∙ ap (range T a offset) n

-- A range within the array, by a count that is not the default: the slice is well formed again, has
-- that many elements, and its element `i` is the array's element `offset + i`. The array's active
-- pointer is its base moved by its offset, and its counts fit in size_t.
pub slice-at :
    (T : Element) (a : ManagedArray) (offset elems : ℕ)
    → IsHandle T a
    → offset + elems ≤ a.elems
    → elems ≢ to_the_end
    → IsHandle T (slice T a offset elems)
      × (size (slice T a offset elems) ≡ elems)
      × ((i : ℕ) → at T (slice T a offset elems) i ≡ at T a (offset + i))
unfolding at size
slice-at T a offset elems h within given =
    rw (slice-given T a offset elems h.fits within given)
      (record { active = refl; fits = omega (arith, h.fits) }, refl, λ i. grind (arith, h.active))

-- A slice of a slice is the slice at the sum of the two offsets, where both ranges are within bounds,
-- neither count is the default, and the array's counts fit in size_t.
pub slice-slice :
    (T : Element) (a : ManagedArray) (offset elems offset' elems' : ℕ)
    → a.offset + a.elems < size_mod
    → offset + elems ≤ a.elems
    → offset' + elems' ≤ elems
    → elems ≢ to_the_end
    → elems' ≢ to_the_end
    → slice T (slice T a offset elems) offset' elems' ≡ slice T a (offset + offset') elems'
slice-slice T a offset elems offset' elems' fits within within' given given' =
    let same : offset' + (offset + a.offset) ≡ offset + offset' + a.offset = omega arith in
    rw (slice-given T a offset elems fits within given) (
      slice-given T (range T a offset elems) offset' elems' (omega arith) within' given'
      ∙ ap
          (λ k. record (range T a offset elems') {
            active_pointer = advance T a.active_base_pointer k;
            offset = k;
          })
          same
      ∙ sym (slice-given T a (offset + offset') elems' fits (omega arith) given'))

-- A range past the end, by a count that is not the default and with a sum that does not overflow:
-- the slice is an empty array.
pub slice-past_end :
    (T : Element) (a : ManagedArray) (offset elems : ℕ)
    → a.elems < offset + elems
    → offset + elems < size_mod
    → elems ≢ to_the_end
    → slice T a offset elems ≡ record empty_array { has_manager = a.has_manager }
unfolding slice size
slice-past_end T a offset elems past small given =
    ground (arith, slice_elems-given T a offset elems given)

-- The bounds check does not see an offset of size_t past the end where the count is left to its
-- default: the slice is no empty array, and claims more elements than the array has.
pub slice-unchecked :
    (T : Element) (a : ManagedArray) (offset : ℕ)
    → a.elems < offset
    → offset < size_mod
    → (size (slice T a offset to_the_end) ≡ a.elems + size_mod - offset)
      × ((slice T a offset to_the_end).is_slice ≡ true)
      × (a.elems < offset + size (slice T a offset to_the_end))
unfolding slice slice_elems size
slice-unchecked T a offset past small = ground arith
