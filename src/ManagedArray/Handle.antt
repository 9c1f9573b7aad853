-- ===== src/ManagedArray/Handle.antt =====
-- The members of a ManagedArray, its comparisons and assignments, and its slices.
use chai.Base.{
  ℕ, Bool, size_mod, ◌+◌, if◌then◌else◌, true, not, ltb, ◌==◌, ◌*◌, ◌-◌, ◌||◌, ◌&&◌, ◌%◌, false,
}
use chai.Umpire.{Pointer, nullptr, RecordPointer}
use chai.World.{null_record}

-- The element type T: `sizeof(T)`, and whether it is const.
pub record Element : Type 0 where
  pub sizeof_t : ℕ
  pub is_const : Bool

-- `has_manager` says that m_resource_manager is not null; there is one ArrayManager.
pub record ManagedArray : Type 0 where
  pub active_pointer : Pointer
  pub active_base_pointer : Pointer
  pub has_manager : Bool
  pub elems : ℕ
  pub offset : ℕ
  pub pointer_record : RecordPointer
  pub is_slice : Bool

-- The default constructor, and the assignment of nullptr.
abbrev pub empty_array : ManagedArray
empty_array = record {
  active_pointer = nullptr;
  active_base_pointer = nullptr;
  has_manager = true;
  elems = 0;
  offset = 0;
  pointer_record = null_record;
  is_slice = false;
}

unfoldable pub size : ManagedArray → ℕ
size a = a.elems

-- `ManagedArray& operator=(ManagedArray&& other)`: the assigned array, and what is left in `other`.
unfoldable pub move_assign : (this other : ManagedArray) → ManagedArray × ManagedArray
move_assign this other = (other, empty_array)

-- `operator=(std::nullptr_t)`
unfoldable pub assign_nullptr : ManagedArray → ManagedArray
assign_nullptr this = empty_array

-- The conversion to a ManagedArray of const reads the same members.
unfoldable pub to_const : ManagedArray → ManagedArray
to_const a = a

unfoldable pub equals : ManagedArray → ManagedArray → Bool
equals a b = a.active_pointer == b.active_pointer

unfoldable pub equals_pointer : ManagedArray → Pointer → Bool
equals_pointer a from = a.active_pointer == from

-- `operator!=` of two arrays, and of an array and a pointer.
unfoldable pub not_equals : ManagedArray → ManagedArray → Bool
not_equals a b = not (a.active_pointer == b.active_pointer)

unfoldable pub not_equals_pointer : ManagedArray → Pointer → Bool
not_equals_pointer a from = not (a.active_pointer == from)

-- `operator==(std::nullptr_t)` and `operator!=(std::nullptr_t)`
unfoldable pub is_nullptr : ManagedArray → Bool
is_nullptr a = a.active_pointer == nullptr || a.elems == 0

unfoldable pub not_nullptr : ManagedArray → Bool
not_nullptr a = not (a.active_pointer == nullptr) && ltb 0 a.elems

-- `explicit operator bool`
unfoldable pub to_bool : ManagedArray → Bool
to_bool a = ltb 0 a.elems

-- The address of `base[n]`.
abbrev pub advance : Element → Pointer → ℕ → Pointer
advance T base n = base + n * T.sizeof_t

-- `operator[]`
unfoldable pub at : Element → ManagedArray → ℕ → Pointer
at T a i = advance T a.active_pointer i

-- `(size_t) -1`, the default of the second parameter.
abbrev pub to_the_end : ℕ
to_the_end = size_mod - 1

-- The number of elements that a slice is asked for: all that follow, by default.
unfoldable pub slice_elems : ManagedArray → ℕ → ℕ → ℕ
unfolding size
slice_elems a offset elems =
    if elems == to_the_end then (size a + size_mod - offset) % size_mod else elems

unfoldable pub slice : Element → ManagedArray → ℕ → ℕ → ManagedArray
unfolding size slice_elems
slice T a offset given =
    if ltb (size a) ((offset + slice_elems a offset given) % size_mod)
    then record empty_array { has_manager = a.has_manager }
    else record {
      active_pointer = advance T a.active_base_pointer ((offset + a.offset) % size_mod);
      active_base_pointer = a.active_base_pointer;
      has_manager = a.has_manager;
      elems = slice_elems a offset given;
      offset = (offset + a.offset) % size_mod;
      pointer_record = a.pointer_record;
      is_slice = true;
    }
