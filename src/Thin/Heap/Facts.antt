-- ===== src/Thin/Heap/Facts.antt =====
-- Heaps of disjoint allocations, and what malloc, realloc and free do to them.
use chai.Base.{
  length, suc, ap, refl, List, ℕ, arith, ◌∷◌, ◌+◌, ◌<◌, ◌≤◌, ◌≡◌, [], none, Bool-cases, some, ◌==◌,
  refl, true, inl, inr, false,
}
use chai.Thin.Heap.{Heap, Block, malloc, drop_block, bytes_of, done, reaches}
use chai.Umpire.{Pointer, nullptr}

-- The blocks lie below `next`, apart from each other and from the null pointer.
abbrev pub Apart : List Block → Pointer → Type 0
Apart [] next = 0 < next
Apart (b ∷ bs) next = (b.base + b.bytes < next) × Apart bs b.base

abbrev pub IsHeap : {A : Type 0} → Heap A → Type 0
IsHeap h = Apart h.blocks h.next

pub Apart-above : (bs : List Block) (n m : Pointer) → Apart bs n → n ≤ m → Apart bs m
Apart-above [] n m a l = omega arith
Apart-above (b ∷ bs) n m (l, a) k = (omega arith, a)

pub Apart-positive : (bs : List Block) (n : Pointer) → Apart bs n → 0 < n
Apart-positive [] n a = a
Apart-positive (b ∷ bs) n (l, a) = omega arith

-- There is no block from `next` on.
pub bytes_of-above : (bs : List Block) (n p : Pointer) → Apart bs n → n ≤ p → bytes_of bs p ≡ none
bytes_of-above [] n p a l = refl
bytes_of-above (b ∷ bs) n p (l, a) k =
    let rest = bytes_of-above bs b.base p a (omega arith) in ground (arith, rest)

pub drop_block-Apart : (bs : List Block) (n p : Pointer) → Apart bs n → Apart (drop_block bs p) n
drop_block-Apart [] n p a = a
drop_block-Apart (b ∷ bs) n p (l, a) = elim (Bool-cases (b.base == p)) [
  | inl same ↦ rw same (Apart-above bs b.base n a (omega arith))
  | inr other ↦ rw other (l, drop_block-Apart bs b.base p a)
]

-- Dropping a block takes one away.
pub drop_block-length :
    (bs : List Block) (p : Pointer) (n : ℕ)
    → bytes_of bs p ≡ some n
    → suc (length (drop_block bs p)) ≡ length bs
drop_block-length [] p n e = cc
drop_block-length (b ∷ bs) p n e = elim (Bool-cases (b.base == p)) [
  | inl same ↦ rw same refl
  | inr other ↦ rw other (ap suc (drop_block-length bs p n (ground arith)))
]

-- A block holds what lies within it.
pub bytes_of-reaches :
    (bs : List Block) (p x : Pointer) (n k : ℕ)
    → bytes_of bs p ≡ some n
    → p ≤ x
    → x + k ≤ p + n
    → reaches bs x k ≡ true
bytes_of-reaches [] p x n k e l m = ground arith
bytes_of-reaches (b ∷ bs) p x n k e l m = elim (Bool-cases (b.base == p)) [
  | inl same ↦ ground arith
  | inr other ↦ ground (arith, bytes_of-reaches bs p x n k (ground arith) l m)
]

pub bytes_of-below :
    (bs : List Block) (n p : Pointer) (k : ℕ) → Apart bs n → bytes_of bs p ≡ some k → p + k < n
bytes_of-below [] n p k a e = ground arith
bytes_of-below (b ∷ bs) n p k (l, a) e = elim (Bool-cases (b.base == p)) [
  | inl same ↦ ground arith
  | inr other ↦ ground (arith, bytes_of-below bs b.base p k a (ground arith))
]

module _ {A : Type 0} (n : ℕ) (h : Heap A) where
  -- The heap with a new block.
  abbrev pub with_block : Heap A
  with_block = record h {
    blocks = record { base = h.next; bytes = n } ∷ h.blocks;
    next = h.next + n + 1;
  }

  pub malloc-fits : h.next + n ≤ h.limit → malloc n h ≡ done h.next with_block
  unfolding malloc
  malloc-fits l = ground arith

  pub malloc-full : h.limit < h.next + n → malloc n h ≡ done nullptr h
  unfolding malloc
  malloc-full l = ground arith

  pub with_block-IsHeap : IsHeap h → IsHeap with_block
  with_block-IsHeap a = (omega arith, a)

-- No block has bytes from `next` on, or at the null pointer.
pub reaches-above :
    (bs : List Block) (n x : Pointer) (k : ℕ) → Apart bs n → n ≤ x → 0 < k → reaches bs x k ≡ false
reaches-above [] n x k a l pos = refl
reaches-above (b ∷ bs) n x k (l, a) m pos =
    ground (arith, reaches-above bs b.base x k a (omega arith) pos)

pub bytes_of-null : (bs : List Block) (n : Pointer) → Apart bs n → bytes_of bs nullptr ≡ none
bytes_of-null [] n a = refl
bytes_of-null (b ∷ bs) n (l, a) =
    let above = Apart-positive bs b.base a in ground (arith, bytes_of-null bs b.base a)
