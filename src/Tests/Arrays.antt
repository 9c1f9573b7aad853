-- ===== src/Tests/Arrays.antt =====
-- Slices of an array of ten elements of four bytes, and a kernel.
use chai.ManagedArray.Handle.{size, at}
use chai.Tests.Worlds.{env}
use chai.ManagedArray.Handle.{Element, ManagedArray, slice, empty_array, to_the_end}
use chai.ManagedArray.Slices.{IsHandle, slice-slice, slice-at, slice-unchecked}
use chai.World.{Cmd, World, for_each}
use chai.Base.{
  List, [], ◌∷◌, zero, suc, ltb, leb, ◌&&◌, if◌then◌else◌, ℕ, false, ◌≡◌, true, ◌+◌, arith,
  size_mod, ◌-◌, ◌<◌, refl,
}
use chai.Kernel.{forall_kernel_gpu}
use chai.Kernel.Threads.{forall_kernel_gpu-once, count}

abbrev pub four_bytes : Element
four_bytes = record { sizeof_t = 4; is_const = false }

abbrev ten : ManagedArray
ten = record empty_array {
  active_pointer = 400;
  active_base_pointer = 400;
  elems = 10;
  pointer_record = 2;
}

slice-at_example :
    IsHandle four_bytes (slice four_bytes ten 2 5)
    × (size (slice four_bytes ten 2 5) ≡ 5)
    × ((i : ℕ) → at four_bytes (slice four_bytes ten 2 5) i ≡ at four_bytes ten (2 + i))
slice-at_example =
    slice-at four_bytes ten 2 5 (record { active = refl; fits = omega arith }) (omega arith)
      (λ e. omega arith)

slice-slice_example : slice four_bytes (slice four_bytes ten 2 5) 1 3 ≡ slice four_bytes ten 3 3
slice-slice_example =
    slice-slice four_bytes ten 2 5 1 3 (omega arith) (omega arith) (omega arith) (λ e. omega arith)
      (λ e. omega arith)

slice-unchecked_example :
    (size (slice four_bytes ten 11 to_the_end) ≡ 10 + size_mod - 11)
    × ((slice four_bytes ten 11 to_the_end).is_slice ≡ true)
    × (10 < 11 + size (slice four_bytes ten 11 to_the_end))
slice-unchecked_example = slice-unchecked four_bytes ten 11 (omega arith) (omega arith)

-- The last thread first.
abbrev backwards : ℕ → List ℕ
backwards zero = []
backwards (suc n) = n ∷ backwards n

backwards-count : (n t : ℕ) → count t (backwards n) ≡ (if ltb t n then 1 else 0)
backwards-count zero t = ground arith
backwards-count (suc n) t = ground (arith, backwards-count n t)

backwards-once : (n t : ℕ) → t < n → count t (backwards n) ≡ 1
backwards-once n t h = ground (arith, backwards-count n t)

forall_kernel_gpu-once_example :
    (indices : List ℕ) × ((body : ℕ → Cmd env (Unit {0})) (w : World env)
      → forall_kernel_gpu (backwards 64) 3 37 body w ≡ for_each indices body w)
    × ((i : ℕ) → count i indices ≡ (if leb 3 i && ltb i 40 then 1 else 0))
forall_kernel_gpu-once_example =
    forall_kernel_gpu-once 3 40 (backwards 64) (λ t h. backwards-once 64 t h)
