-- ===== src/Thin/Device/Laws.antt =====
-- What src/chai/ManagedArray_thin.inl relies on of the device's runtime: managed memory that is
-- allocated, copied and freed as the C library's, a copy past an allocation that is undefined, and a
-- wait for the device that leaves memory alone.
use chai.Thin.Device.{
  Runtime, Build, on_runtime, synchronize, gpu_malloc_managed, gpu_memcpy, gpu_free, checked,
  allocate_on, gpu_error_check, address_of,
}
use chai.Thin.Heap.{
  Heap, done, free_block, Result, undefined, reaches, bytes_of, copy_cells, drop_block,
}
use chai.Base.{◌≡◌, true, ℕ, ◌||◌, arith, Bool-cases, ◌+◌, ◌≢◌, false, some, ◌≤◌, inl, inr}
use chai.Thin.Array.{release_memory, new_memory, synchronize_um, bytes}
use chai.Umpire.{Pointer, nullptr}
use chai.ManagedArray.Handle.{Element, ManagedArray}
use chai.Thin.Heap.Facts.{with_block, malloc-fits}

pub record RuntimeLaws {A : Type 0} (R : Runtime A) : Type 0 where
  pub waits : (h : Heap A) → R.runtime_synchronize h ≡ done 0 h
  pub allocates :
      (n : ℕ) (h : Heap A)
      → h.next + n ≤ h.limit
      → R.runtime_malloc_managed n h ≡ done (0, h.next) (with_block n h)
  pub copies :
      (dst src : Pointer) (n : ℕ) (h : Heap A)
      → reaches h.blocks dst n ≡ true
      → reaches h.blocks src n ≡ true
      → R.runtime_memcpy dst src n h ≡ done 0 (record h { cell = copy_cells dst src n h.cell })
  pub past_end :
      (dst src : Pointer) (n : ℕ) (h : Heap A)
      → reaches h.blocks dst n ≡ false
      → R.runtime_memcpy dst src n h ≡ undefined
  pub frees_null : (h : Heap A) → R.runtime_free nullptr h ≡ done 0 h
  pub frees :
      (p : Pointer) (n : ℕ) (h : Heap A)
      → p ≢ nullptr
      → bytes_of h.blocks p ≡ some n
      → R.runtime_free p h ≡ done 0 (record h { blocks = drop_block h.blocks p })

-- A build with UM has one of the runtimes.
pub record BuildLaws {A : Type 0} (B : Build A) : Type 0 where
  pub hip_laws : RuntimeLaws B.hip_runtime
  pub cuda_laws : RuntimeLaws B.cuda_runtime
  pub has_runtime : B.config.um ≡ true → (B.config.hip || B.config.cuda) ≡ true

module _ {A : Type 0} {B : Build A} (laws : BuildLaws B) where
  -- A call that both runtimes answer alike.
  on_runtime-both :
      (call : Runtime A → Heap A → Result A ℕ) (h h' : Heap A)
      → B.config.um ≡ true
      → call B.hip_runtime h ≡ done 0 h'
      → call B.cuda_runtime h ≡ done 0 h'
      → on_runtime B call h ≡ done tt h'
  unfolding on_runtime checked gpu_error_check
  on_runtime-both call h h' um a b = let some_runtime = laws.has_runtime um in ground arith

  on_runtime-undefined :
      (call : Runtime A → Heap A → Result A ℕ) (h : Heap A)
      → B.config.um ≡ true
      → call B.hip_runtime h ≡ undefined
      → call B.cuda_runtime h ≡ undefined
      → on_runtime B call h ≡ undefined
  unfolding on_runtime checked
  on_runtime-undefined call h um a b = let some_runtime = laws.has_runtime um in ground arith

  pub synchronize_um_lem : (h : Heap A) → synchronize_um B h ≡ done tt h
  unfolding synchronize
  synchronize_um_lem h = elim (Bool-cases B.config.um) [
    | inl um ↦
        let waited =
          on_runtime-both (λ r. r.runtime_synchronize) h h um (laws.hip_laws.waits h)
            (laws.cuda_laws.waits h) in
        ground arith
    | inr plain ↦ ground arith
  ]

  pub gpu_malloc_managed_lem :
      (old : Pointer) (n : ℕ) (h : Heap A)
      → B.config.um ≡ true
      → h.next + n ≤ h.limit
      → gpu_malloc_managed B old n h ≡ done h.next (with_block n h)
  unfolding gpu_malloc_managed allocate_on address_of gpu_error_check
  gpu_malloc_managed_lem old n h um fits =
      let some_runtime = laws.has_runtime um in
      let a = laws.hip_laws.allocates n h fits in
      let b = laws.cuda_laws.allocates n h fits in ground arith

  pub gpu_memcpy_lem :
      (dst src : Pointer) (n : ℕ) (h : Heap A)
      → B.config.um ≡ true
      → reaches h.blocks dst n ≡ true
      → reaches h.blocks src n ≡ true
      → gpu_memcpy B dst src n h ≡ done tt (record h { cell = copy_cells dst src n h.cell })
  unfolding gpu_memcpy
  gpu_memcpy_lem dst src n h um d s =
      on_runtime-both (λ r. r.runtime_memcpy dst src n) h _ um
        (laws.hip_laws.copies dst src n h d s) (laws.cuda_laws.copies dst src n h d s)

  pub gpu_memcpy-past_end :
      (dst src : Pointer) (n : ℕ) (h : Heap A)
      → B.config.um ≡ true
      → reaches h.blocks dst n ≡ false
      → gpu_memcpy B dst src n h ≡ undefined
  unfolding gpu_memcpy
  gpu_memcpy-past_end dst src n h um d =
      on_runtime-undefined (λ r. r.runtime_memcpy dst src n) h um
        (laws.hip_laws.past_end dst src n h d) (laws.cuda_laws.past_end dst src n h d)

  -- Memory of either kind is freed alike.
  pub release_memory-null : (h : Heap A) → release_memory B nullptr h ≡ done tt h
  unfolding release_memory gpu_free free_block
  release_memory-null h = elim (Bool-cases B.config.um) [
    | inl um ↦
        let freed =
          on_runtime-both (λ r. r.runtime_free nullptr) h h um (laws.hip_laws.frees_null h)
            (laws.cuda_laws.frees_null h) in
        ground arith
    | inr plain ↦ ground arith
  ]

  pub gpu_free_lem :
      (p : Pointer) (n : ℕ) (h : Heap A)
      → B.config.um ≡ true
      → p ≢ nullptr
      → bytes_of h.blocks p ≡ some n
      → gpu_free B p h ≡ done tt (record h { blocks = drop_block h.blocks p })
  unfolding gpu_free
  gpu_free_lem p n h um real e =
      on_runtime-both (λ r. r.runtime_free p) h _ um (laws.hip_laws.frees p n h real e)
        (laws.cuda_laws.frees p n h real e)

  pub release_memory_lem :
      (p : Pointer) (n : ℕ) (h : Heap A)
      → p ≢ nullptr
      → bytes_of h.blocks p ≡ some n
      → release_memory B p h ≡ done tt (record h { blocks = drop_block h.blocks p })
  unfolding release_memory free_block
  release_memory_lem p n h real e = elim (Bool-cases B.config.um) [
    | inl um ↦ let freed = gpu_free_lem p n h um real e in ground arith
    | inr plain ↦ ground arith
  ]

  pub new_memory_lem :
      (T : Element) (a : ManagedArray) (elems : ℕ) (h : Heap A)
      → h.next + bytes T elems ≤ h.limit
      → new_memory B T a elems h ≡ done h.next (with_block (bytes T elems) h)
  unfolding new_memory
  new_memory_lem T a elems h fits = elim (Bool-cases B.config.um) [
    | inl um ↦
        let new = gpu_malloc_managed_lem a.active_pointer (bytes T elems) h um fits in ground arith
    | inr plain ↦ let new = malloc-fits (bytes T elems) h fits in ground arith
  ]
