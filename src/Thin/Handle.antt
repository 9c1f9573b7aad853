-- ===== src/Thin/Handle.antt =====
-- The members of a thin ManagedArray, its constructors, conversions, comparisons and slices
-- (src/chai/ManagedArray_thin.inl, and `slice` of src/chai/ManagedArray.hpp). The members are those of
-- ManagedArray.Handle, where the default initialisers leave both the manager and the record null.
use chai.ManagedArray.Handle.{size, ManagedArray, Element, slice_elems, to_the_end, advance}
use chai.Base.{
  List, ℕ, Bool, false, not, ◌/◌, ◌==◌, if◌then◌else◌, ltb, ◌*◌, ◌%◌, ◌+◌, size_mod, true,
}
use chai.Umpire.{Pointer, nullptr, AllocatorId, RecordPointer}
use chai.Space.{ExecutionSpace, update}
use chai.World.{PointerRecord, new_record}

-- `ManagedArray()`, and the constructor from nullptr.
abbrev pub empty_array : ManagedArray
empty_array = record {
  active_pointer = nullptr;
  active_base_pointer = nullptr;
  has_manager = false;
  elems = 0;
  offset = 0;
  pointer_record = nullptr;
  is_slice = false;
}

-- The constructor from lists of spaces and allocators: with no record, it sets no allocator.
unfoldable pub with_allocators : List (ExecutionSpace × AllocatorId) → ManagedArray
with_allocators given = empty_array

module _ (T : Element) where
  -- `ManagedArray(PointerRecord* record, ExecutionSpace space)`
  unfoldable pub of_record : PointerRecord → ExecutionSpace → ManagedArray
  of_record p space = record empty_array {
    active_pointer = p.pointers space;
    active_base_pointer = p.pointers space;
    elems = p.size / T.sizeof_t;
    is_slice = not (p.owned space);
  }

  -- `makeManagedArray` of a build with CHAI_DISABLE_RM: a record that lives for the call.
  unfoldable pub make_managed_array : Pointer → ℕ → ExecutionSpace → Bool → ManagedArray
  unfolding of_record
  make_managed_array ptr elems space owned =
      of_record
        (record new_record {
          pointers = update new_record.pointers space ptr;
          size = T.sizeof_t * elems % size_mod;
          owned = update new_record.owned space owned;
        })
        space

  unfoldable pub slice : ManagedArray → ℕ → ℕ → ManagedArray
  unfolding slice_elems size
  slice a offset given =
      if ltb (size a) ((offset + slice_elems a offset given) % size_mod)
      then record empty_array { has_manager = a.has_manager }
      else record {
        active_pointer = advance T a.active_base_pointer ((offset + a.offset) % size_mod);
        active_base_pointer = a.active_base_pointer;
        has_manager = a.has_manager;
        elems = slice_elems a offset given;
        offset = (offset + a.offset) % size_mod;
        pointer_record = a.pointer_record;
        is_slice = true;
      }

-- `ManagedArray(T* data, ArrayManager* array_manager, size_t elems, PointerRecord* pointer_record)`
unfoldable pub of_members : Pointer → Bool → ℕ → RecordPointer → ManagedArray
of_members ptr has_manager elems pointer_record = record empty_array {
  active_pointer = ptr;
  active_base_pointer = ptr;
  has_manager = has_manager;
  elems = elems;
  pointer_record = pointer_record;
}

-- The implicit conversion from a raw pointer, whose element count is `(size_t) -1`.
unfoldable pub of_pointer : Pointer → ManagedArray
of_pointer ptr = record empty_array {
  active_pointer = ptr;
  active_base_pointer = ptr;
  elems = to_the_end;
}

-- The conversion to a ManagedArray of const: it keeps neither the offset nor that it is a slice.
unfoldable pub to_const : ManagedArray → ManagedArray
unfolding of_members
to_const a = of_members a.active_pointer a.has_manager a.elems nullptr

-- `operator=(std::nullptr_t)`: the offset, the manager and the record stay.
unfoldable pub assign_nullptr : ManagedArray → ManagedArray
assign_nullptr a = record a {
  active_pointer = nullptr;
  active_base_pointer = nullptr;
  elems = 0;
  is_slice = false;
}

-- `operator=(ManagedArray&& other)`, for two different objects: the assigned one, and `other`.
unfoldable pub move_assign : (this other : ManagedArray) → ManagedArray × ManagedArray
unfolding assign_nullptr
move_assign this other = (other, assign_nullptr other)

-- `data()`, `cdata()`, `data(space, do_move)`, `getPointer`, `getActivePointer` and `operator T*`.
unfoldable pub data_pointer : ManagedArray → Pointer
data_pointer a = a.active_pointer

unfoldable pub get_active_base_pointer : ManagedArray → Pointer
get_active_base_pointer a = a.active_base_pointer

-- `==` of two arrays, of an array and a pointer, and of an array and nullptr; `operator bool`.
unfoldable pub equals : ManagedArray → ManagedArray → Bool
equals a b = a.active_pointer == b.active_pointer

unfoldable pub equals_pointer : ManagedArray → Pointer → Bool
equals_pointer a from = a.active_pointer == from

unfoldable pub is_nullptr : ManagedArray → Bool
is_nullptr a = a.active_pointer == nullptr

unfoldable pub not_nullptr : ManagedArray → Bool
not_nullptr a = not (a.active_pointer == nullptr)
