-- ===== src/ManagedArray/Move/Coherence.antt =====
-- A handle after a move (ManagedArray::move).
use chai.ManagedArray.Move.{move, is_pinned_down, copy}
use chai.Umpire.{Env, Pointer, ManagerLaws, MapLaws, nullptr}
use chai.ManagedArray.Handle.{Element, ManagedArray, advance}
use chai.World.{World, PointerRecord, done}
use chai.Space.{ExecutionSpace}
use chai.ArrayManager.Move.{move_pointer}
use chai.ArrayManager.Move.Coherence.{IsReady, Latest, IsMovable}
use chai.Base.{
  false, ◌≢◌, true, ◌≡◌, some, arith, ap, sym, ◌∙◌, Bool, if◌then◌else◌, ◌/◌, ◌⊎◌, ◌<◌, not,
  Bool-cases, inl, inr,
}
use chai.ArrayManager.Move.Follow.{move-register_touch}
use chai.ArrayManager.Settings.{get_execution_space}

-- The handle with its pointers set by a base.
abbrev pub pointed : Element → ManagedArray → Pointer → ManagedArray
pointed T a base = record a { active_base_pointer = base; active_pointer = advance T base a.offset }

-- The count of elements that a copy takes from the record, unless the array is a slice.
abbrev pub recounted : Element → ManagedArray → PointerRecord → ManagedArray
recounted T a p = record a { elems = if a.is_slice then a.elems else p.size / T.sizeof_t }

module _ {E : Env} (T : Element) (a : ManagedArray) (w : World E) (p : PointerRecord) where
  pub copy-move :
      (a.active_base_pointer ≢ nullptr) ⊎ (0 < a.elems)
      → a.pointer_record ≢ nullptr
      → w.heap a.pointer_record ≡ some p
      → copy T a w ≡ move T (recounted T a p) w.current_execution_space (not T.is_const) w
  unfolding copy get_execution_space
  copy-move filled real at = elim (Bool-cases a.is_slice) [
    | inl s ↦ elim filled [ inl b ↦ ground arith | inr n ↦ ground arith ]
    | inr s ↦ elim filled [ inl b ↦ ground arith | inr n ↦ ground arith ]
  ]

module _ {E : Env} {Block : Type 0} {contents : E.Manager → Pointer → Block}
    {IsLive : E.Manager → Pointer → Type 0} (laws : ManagerLaws E Block contents IsLive)
    (T : Element) {w : World E} {p : PointerRecord} {v : Block} (a : ManagedArray)
    (space : ExecutionSpace) where
  -- A handle of an array that is moved to a space, as the capture of a kernel moves it, points to the
  -- array's latest value: its base is the record's pointer in that space, with the bytes last
  -- written, its active pointer is the base moved by the offset, and the rest of it is unchanged. The
  -- record is last touched in the space if the move registers a touch, and where it was if not. The
  -- space is not NONE, the record has the value where it was last touched and its memory is not in UM
  -- or PINNED of a build with that, the mutex is free, the map holds live pointers only, and the
  -- resource manager and the map meet their laws.
  pub move-contents :
      (touch : Bool)
      → MapLaws E
      → IsReady laws w
      → Latest laws w a.pointer_record p v
      → space ≢ ExecutionSpace.none
      → IsMovable E.config p
      → (w' : World E) × (p' : PointerRecord) × (move T a space touch w
          ≡ done (pointed T a (p'.pointers space)) w')
        × (contents w'.umpire (p'.pointers space) ≡ v)
        × (w'.heap a.pointer_record ≡ some p')
        × (p'.last_space ≡ (if touch then space else p.last_space))
  unfolding move move_pointer is_pinned_down
  move-contents true map ready latest spaced movable =
      let (w', p', f) = move-register_touch laws space ready latest spaced map movable in
      let b = f.between in
      (
        w',
        p',
        ground (arith, b.moves, b.at, b.touches, b.same_space, b.pointer),
        ap (λ s. contents w'.umpire (p'.pointers s)) (sym f.last_space) ∙ f.latest.value,
        f.latest.at,
        f.last_space,
      )
  move-contents false map ready latest spaced movable =
      let (w', p', f) = move-register_touch laws space ready latest spaced map movable in
      let b = f.between in
      (b.world, b.object, ground (arith, b.moves, b.at, b.same_space), b.value, b.at, b.same_space)
