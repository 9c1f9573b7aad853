-- ===== src/Thin/Array/Elements.antt =====
-- Reads and writes of the elements of a thin ManagedArray (pick, set, incr and decr).
use chai.Base.{
  ℕ, ◌<◌, ◌*◌, ◌≢◌, ◌+◌, ◌≡◌, false, ◌≤◌, arith, true, size_mod, if◌then◌else◌, ◌==◌, suc, some,
  ℕ_discrete, ◌∙◌, sym, refl,
}
use chai.ManagedArray.Handle.{Element, ManagedArray, advance}
use chai.Thin.Device.{Build}
use chai.Thin.Device.Laws.{BuildLaws, synchronize_um_lem}
use chai.Thin.Heap.{Heap, reaches, bytes_of, load, store, done}
use native.Mathlib.Nat.{eq_of_mul-eq-mul_right, mul-le-mul_left, mul_comm, suc-mul}
use chai.Umpire.{nullptr}
use chai.Thin.Heap.Facts.{bytes_of-reaches}
use chai.Thin.Array.{pick, set, change, bytes}

-- An element within the array lies within its bytes.
pub element-fits : (s i n : ℕ) → i < n → i * s + s ≤ s * n
element-fits s i n l = omega (arith, mul-le-mul_left s l, mul_comm s (suc i), suc-mul i s)

element-apart : (s i j : ℕ) → 0 < s → i ≢ j → i * s ≢ j * s
element-apart s i j pos other same = other (eq_of_mul-eq-mul_right s pos i j same)

-- The array's block is live, and as long as its elements.
pub record IsOwner {A : Type 0} (T : Element) (a : ManagedArray) (h : Heap A) : Type 0 where
  pub whole : a.is_slice ≡ false
  pub real : a.active_pointer ≢ nullptr
  pub length_fits : T.sizeof_t * a.elems < size_mod
  pub owns : bytes_of h.blocks a.active_pointer ≡ some (bytes T a.elems)

pub IsOwner-reaches :
    {A : Type 0} (T : Element) (a : ManagedArray) (h : Heap A) (i : ℕ)
    → IsOwner T a h
    → i < a.elems
    → reaches h.blocks (advance T a.active_pointer i) T.sizeof_t ≡ true
IsOwner-reaches T a h i o l =
    bytes_of-reaches h.blocks a.active_pointer (advance T a.active_pointer i) (bytes T a.elems)
      T.sizeof_t o.owns (omega arith)
      (omega (arith, element-fits T.sizeof_t i a.elems l, o.length_fits))

module _ {A : Type 0} {B : Build A} (laws : BuildLaws B) (T : Element) (a : ManagedArray)
    (h : Heap A) (i : ℕ)
    (within : reaches h.blocks (advance T a.active_pointer i) T.sizeof_t ≡ true) where
  pub pick_lem : pick B T a i h ≡ done (h.cell (advance T a.active_pointer i)) h
  unfolding pick load
  pick_lem = ground (arith, synchronize_um_lem laws h)

  abbrev pub with_element : A → Heap A
  with_element v = record h {
    cell = λ q. if q == advance T a.active_pointer i then v else h.cell q;
  }

  pub set_lem : (v : A) → set B T a i v h ≡ done tt (with_element v)
  unfolding set store
  set_lem v = ground (arith, synchronize_um_lem laws h)

  pick-with_element : (v : A) → pick B T a i (with_element v) ≡ done v (with_element v)
  unfolding pick load
  pick-with_element v = ground (arith, synchronize_um_lem laws (with_element v))

  change_lem :
      (f : A → A)
      → change B T f a i h ≡ done tt (with_element (f (h.cell (advance T a.active_pointer i))))
  unfolding change load store
  change_lem f = ground (arith, synchronize_um_lem laws h)

  -- An element that is within a live block of the heap can be set, is then picked as set, and no
  -- other element of the array changes, nor does any block. An increment or decrement sets the element
  -- to a function of what a pick yields. The element type has a size, and the
  -- device's runtimes meet their laws.
  pub set-pick :
      0 < T.sizeof_t
      → (v : A) (f : A → A)
      → (h' : Heap A) × (set B T a i v h ≡ done tt h')
        × (pick B T a i h' ≡ done v h')
        × ((j : ℕ)
            → h'.cell (advance T a.active_pointer j)
              ≡ (if j == i then v else h.cell (advance T a.active_pointer j)))
        × (h'.blocks ≡ h.blocks)
        × (pick B T a i h ≡ done (h.cell (advance T a.active_pointer i)) h)
        × (change B T f a i h ≡ set B T a i (f (h.cell (advance T a.active_pointer i))) h)
  set-pick pos v f = (
    with_element v,
    set_lem v,
    pick-with_element v,
    (λ j. elim (ℕ_discrete j i) [
      | yes same ↦ ground arith
      | no other ↦ ground (arith, element-apart T.sizeof_t j i pos other)
    ]),
    refl,
    pick_lem,
    change_lem f ∙ sym (set_lem (f (h.cell (advance T a.active_pointer i)))),
  )
