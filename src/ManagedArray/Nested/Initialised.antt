-- ===== src/ManagedArray/Nested/Initialised.antt =====
-- The inner arrays of a new ManagedArray of ManagedArrays.
use chai.ManagedArray.Nested.{
  read, write, HandleMemory, init_elements, move_elements, init_inner, move_inner,
}
use chai.ManagedArray.Handle.{empty_array, advance, Element, ManagedArray}
use chai.ManagedArray.Move.{copy, shallow_copy}
use chai.Base.{
  ℕ, ◌≢◌, ◌+◌, ◌≡◌, ◌<◌, ◌≤◌, suc, arith, ◌*◌, ◌⊎◌, zero, dec_lt, ℕ_discrete, ◌∙◌, inl, ap, refl,
  some, inr, ◌/◌,
}
use chai.Umpire.{Env, Pointer, nullptr}
use chai.World.{World, PointerRecord, done, load, null_record}
use chai.Thin.Array.Elements.{element-fits}
use native.Mathlib.Nat.{mul_comm}
use chai.Space.{cpu}

-- Elements of a size that are not the same share no byte.
pub elements-apart :
    (s base i j : ℕ) → i ≢ j → (base + i * s + s ≤ base + j * s) ⊎ (base + j * s + s ≤ base + i * s)
elements-apart s base i j other = elim (dec_lt i j) [
  | yes below ↦ inl (omega (arith, element-fits s i j below, mul_comm s j))
  | no above ↦ inr (omega (arith, element-fits s j i (omega arith), mul_comm s i))
]

module _ {E : Env} (V : HandleMemory E) (T : Element) where
  -- What the code relies on of memory.
  pub record HandleLaws : Type 0 where
    pub poke_here : (p : Pointer) (a : ManagedArray) (u : E.Manager) → V.peek p (V.poke p a u) ≡ a
    pub poke_other :
        (p q : Pointer) (a : ManagedArray) (u : E.Manager)
        → (p + T.sizeof_t ≤ q) ⊎ (q + T.sizeof_t ≤ p)
        → V.peek q (V.poke p a u) ≡ V.peek q u

  -- Memory once `n` elements from `start` on have been set to nullptr.
  abbrev pub cleared : (n start : ℕ) → Pointer → E.Manager → E.Manager
  cleared zero start base u = u
  cleared (suc n) start base u =
      cleared n (start + 1) base (V.poke (advance T base start) empty_array u)

  module _ (base : Pointer) (real : base ≢ nullptr) where
    init_elements_lem :
        (n start : ℕ) (w : World E)
        → init_elements V T n start base w
          ≡ done tt (record w { umpire = cleared n start base w.umpire })
    unfolding init_elements write
    init_elements_lem zero start w = refl
    init_elements_lem (suc n) start w =
        let later =
          init_elements_lem n (start + 1)
            (record w { umpire = V.poke (advance T base start) empty_array w.umpire }) in
        ground (arith, later)

module _ {E : Env} {V : HandleMemory E} {T : Element} (laws : HandleLaws V T) (base : Pointer) where
  cleared-before :
      (n start : ℕ) (u : E.Manager) (i : ℕ)
      → i < start
      → V.peek (advance T base i) (cleared V T n start base u) ≡ V.peek (advance T base i) u
  cleared-before zero start u i l = refl
  cleared-before (suc n) start u i l =
      cleared-before n (start + 1) _ i (omega arith)
      ∙ laws.poke_other (advance T base start) (advance T base i) empty_array u
          (elements-apart T.sizeof_t base start i (λ e. omega arith))

  cleared-empty :
      (n start : ℕ) (u : E.Manager) (i : ℕ)
      → start ≤ i
      → i < start + n
      → V.peek (advance T base i) (cleared V T n start base u) ≡ empty_array
  cleared-empty zero start u i l m = absurd (omega arith)
  cleared-empty (suc n) start u i l m = elim (ℕ_discrete start i) [
    | yes same ↦
        cleared-before n (start + 1) _ i (omega arith)
        ∙ ap (λ j. V.peek (advance T base i) (V.poke (advance T base j) empty_array u)) same
        ∙ laws.poke_here (advance T base i) empty_array u
    | no other ↦ cleared-empty n (start + 1) _ i (omega arith) (omega arith)
  ]

  module _ (U : Element) (real : base ≢ nullptr) (z : PointerRecord) (no_bytes : z.size ≡ 0)
      (sized : 0 < U.sizeof_t) where
    -- A move of arrays that are equal to nullptr sets each to nullptr again.
    move_elements_lem :
        (n i : ℕ) (w : World E)
        → w.heap null_record ≡ some z
        → ((j : ℕ) → i ≤ j → j < i + n → V.peek (advance T base j) w.umpire ≡ empty_array)
        → move_elements V T U n i base w
          ≡ done tt (record w { umpire = cleared V T n i base w.umpire })
    unfolding move_elements read write copy shallow_copy load
    move_elements_lem zero i w null all = refl
    move_elements_lem (suc n) i w null all =
        let here : V.peek (advance T base i) w.umpire ≡ empty_array =
          all i (omega arith) (omega arith) in
        let rest =
          move_elements_lem n (i + 1)
            (record w { umpire = V.poke (advance T base i) empty_array w.umpire }) null
            (λ j l m.
              laws.poke_other (advance T base i) (advance T base j) empty_array w.umpire
                (elements-apart T.sizeof_t base i j (λ e. omega arith))
              ∙ all j (omega arith) (omega arith)) in
        ground (arith, here, rest, null, no_bytes)

  -- The inner arrays of an array of ManagedArrays, once initInner has set them to nullptr, and again
  -- once moveInnerImpl has copied each to the current space, are all equal to nullptr: neither call
  -- fails, and the record and the other records stay as they are. The array has memory on the CPU,
  -- where its handle points to, its record has its elements' bytes, the null record has no bytes, and
  -- memory meets its laws.
  pub init_inner-move_inner :
      (U : Element) (z : PointerRecord) (a : ManagedArray) (p : PointerRecord) (w : World E)
      → base ≢ nullptr
      → 0 < U.sizeof_t
      → z.size ≡ 0
      → w.heap null_record ≡ some z
      → w.heap a.pointer_record ≡ some p
      → a.active_base_pointer ≡ base
      → p.pointers cpu ≡ base
      → p.size / T.sizeof_t ≡ a.elems
      → (i : ℕ) → i < a.elems
      → (w' : World E) × (w'' : World E) × (init_inner V T a 0 w ≡ done tt w')
        × (move_inner V T U a w' ≡ done tt w'')
        × (w''.heap ≡ w.heap)
        × (V.peek (advance T base i) w'.umpire ≡ empty_array)
        × (V.peek (advance T base i) w''.umpire ≡ empty_array)
  unfolding init_inner move_inner load
  init_inner-move_inner U z a p w real sized no_bytes null at points on_cpu counted i l =
      let n : ℕ = a.elems in
      let w' : World E = record w { umpire = cleared V T n 0 base w.umpire } in
      let w'' : World E = record w { umpire = cleared V T n 0 base w'.umpire } in
      let moved =
        move_elements_lem U real z no_bytes sized n 0 w' null
          (λ j m k. cleared-empty n 0 w.umpire j m (omega arith)) in
      (
        w',
        w'',
        ground (arith, points, init_elements_lem V T base real n 0 w),
        ground (arith, at, on_cpu, counted, moved),
        refl,
        cleared-empty n 0 w.umpire i (omega arith) (omega arith),
        cleared-empty n 0 w'.umpire i (omega arith) (omega arith),
      )
