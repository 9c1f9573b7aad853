-- ===== src/Thin/Heap.antt =====
-- The memory that src/chai/ManagedArray_thin.inl works on: malloc, realloc and free of the C library,
-- as glibc has them, and reads and writes of elements.
pub mod Facts
use chai.Umpire.{Pointer, nullptr}
use chai.Base.{
  List, ℕ, Bool, Option, if◌then◌else◌, ◌∷◌, leb, false, none, ◌==◌, some, ◌&&◌, ◌||◌, ◌+◌, [], ltb,
  min, ◌-◌,
}

-- An allocation: its base and its length in bytes.
pub record Block : Type 0 where
  pub base : Pointer
  pub bytes : ℕ

-- The allocations, newest first, the next address to give out, the end of the address space, and the
-- element that starts at each address.
pub record Heap (A : Type 0) : Type 0 where
  pub blocks : List Block
  pub next : Pointer
  pub limit : ℕ
  pub cell : Pointer → A

-- What a call ends in: a result and the heap, undefined behaviour, or the end of the process.
pub data Result (A X : Type 0) : Type 0 where
  undefined : Result A X
  exited : ℕ → Result A X
  done : X → Heap A → Result A X

-- The block holds the `n` bytes from `x` on.
abbrev pub covers : Block → Pointer → ℕ → Bool
covers b x n = leb b.base x && leb (x + n) (b.base + b.bytes)

abbrev pub reaches : List Block → Pointer → ℕ → Bool
reaches [] x n = false
reaches (b ∷ bs) x n = covers b x n || reaches bs x n

-- The length of the block at a base.
abbrev pub bytes_of : List Block → Pointer → Option ℕ
bytes_of [] p = none
bytes_of (b ∷ bs) p = if b.base == p then some b.bytes else bytes_of bs p

abbrev pub drop_block : List Block → Pointer → List Block
drop_block [] p = []
drop_block (b ∷ bs) p = if b.base == p then bs else b ∷ drop_block bs p

module _ {A : Type 0} where
  abbrev pub bind : {X Y : Type 0} → Result A X → (X → Heap A → Result A Y) → Result A Y
  bind undefined k = undefined
  bind (exited n) k = exited n
  bind (done x h) k = k x h

  infixl 5 ◌>>=◌ ◌>>◌
  abbrev pub ◌>>=◌ :
      {X Y : Type 0} → (Heap A → Result A X) → (X → Heap A → Result A Y) → Heap A → Result A Y
  ◌>>=◌ m f h = bind (m h) f

  abbrev pub ◌>>◌ :
      {Y : Type 0} → (Heap A → Result A (Unit {0})) → (Heap A → Result A Y) → Heap A → Result A Y
  ◌>>◌ m k h = bind (m h) (λ _. k)

  abbrev pub pure : {X : Type 0} → X → Heap A → Result A X
  pure x h = done x h

  -- `malloc(n)`, which yields a null pointer where the memory is used up.
  unfoldable pub malloc : ℕ → Heap A → Result A Pointer
  malloc n h =
      if leb (h.next + n) h.limit
      then done h.next (record h {
        blocks = record { base = h.next; bytes = n } ∷ h.blocks;
        next = h.next + n + 1;
      })
      else done nullptr h

  -- `::free(p)`
  unfoldable pub free_block : Pointer → Heap A → Result A (Unit {0})
  free_block p h = if p == nullptr then done tt h else elim (bytes_of h.blocks p) [
    | none ↦ undefined
    | some n ↦ done tt (record h { blocks = drop_block h.blocks p })
  ]

  -- The cells, with `n` of them from `src` on copied to `dst`.
  abbrev pub copy_cells : (dst src : Pointer) → ℕ → (Pointer → A) → Pointer → A
  copy_cells dst src n cell q =
      if leb dst q && ltb q (dst + n) then cell (src + (q - dst)) else cell q

  -- The copy of a block's bytes into a new one, and the end of the old block.
  unfoldable pub replace_block : (old new : Pointer) → ℕ → Heap A → Result A Pointer
  replace_block old new n h =
      if new == nullptr
      then done nullptr h
      else done new
          (record h { blocks = drop_block h.blocks old; cell = copy_cells new old n h.cell })

  -- `realloc(p, n)`, which frees the block where `n` is 0.
  unfoldable pub realloc : Pointer → ℕ → Heap A → Result A Pointer
  unfolding malloc free_block replace_block
  realloc p n h =
      if p == nullptr
      then malloc n h
      else if n == 0
      then bind (free_block p h) (λ _ h'. done nullptr h')
      else elim (bytes_of h.blocks p) [
        | none ↦ undefined
        | some old ↦ bind (malloc n h) (λ new. replace_block p new (min old n))
      ]

  -- A read and a write of an element of `n` bytes.
  unfoldable pub load : Pointer → ℕ → Heap A → Result A A
  load p n h = if reaches h.blocks p n then done (h.cell p) h else undefined

  unfoldable pub store : Pointer → ℕ → A → Heap A → Result A (Unit {0})
  store p n v h =
      if reaches h.blocks p n
      then done tt (record h { cell = λ q. if q == p then v else h.cell q })
      else undefined
