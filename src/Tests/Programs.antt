-- ===== src/Tests/Programs.antt =====
-- A program of kernels over two arrays.
use chai.World.{PointerRecord, World, done}
use chai.ManagedArray.Handle.{ManagedArray, Element}
use chai.Base.{
  ℕ, ◌≢◌, List, arith, inl, ◌⊎◌, refl, if◌then◌else◌, ◌+◌, ◌<◌, ◌==◌, ◌∷◌, some, [], ◌≡◌,
}
use chai.Space.{space_dec, update, cpu}
use chai.Kernel.Programs.Family.{IsFamily, Apart}
use chai.Tests.Worlds.{written, env, start, simulated}
use chai.Tests.Kernels.{two}
use chai.ArrayManager.Move.Settled.{IsCoherent}
use chai.Tests.Moves.{laws}
use chai.Kernel.Programs.{Kernel, run_program, apply_program}
use chai.Umpire.{nullptr}
use chai.Kernel.Uses.{gpu_async, sequential, Policy, policy_space}
use chai.Umpire.Concrete.{block_of, concrete-MapLaws}
use chai.Tests.Uses.{store_block, store_block-laws}
use chai.Tests.Arrays.{four_bytes}
use chai.ManagedArray.Move.{copy}
use chai.ArrayManager.Settings.Effect.{in_space}
use chai.Kernel.Programs.Refines.{run_program-apply_program}

-- A second array, written on the CPU at address 2, and a program over it and the array of `start`.
data Name : Type 0 where
  first_array second_array : Name

name_dec : Discrete Name
name_dec = hlevel

abbrev second_record : PointerRecord
second_record = record written { pointers = update (λ _. nullptr) cpu 2 }

abbrev second : ManagedArray
second = record two { active_pointer = 2; active_base_pointer = 2; pointer_record = 3 }

abbrev both_start : World env
both_start = record start {
  heap = λ r. if r == 3 then some second_record else start.heap r;
  next_record = 4;
  pointer_map = (1, 2) ∷ (2, 3) ∷ [];
  umpire = record { last = 2; block = λ q. if q == 1 then 42 else if q == 2 then 7 else 0 };
}

abbrev named_arrays : Name → ManagedArray
named_arrays first_array = two
named_arrays second_array = second

abbrev named_records : Name → PointerRecord
named_records first_array = written
named_records second_array = second_record

abbrev named_values : Name → ℕ
named_values first_array = 42
named_values second_array = 7

named_each :
    (n : Name)
    → IsCoherent laws both_start (named_arrays n).pointer_record (named_records n) (named_values n)
unfolding space_dec
named_each first_array = record {
  real = λ e. omega arith;
  own = λ e. omega arith;
  at = refl;
  in_use = inl refl;
  here = λ e. omega arith;
  live = λ s h. ground arith;
  unlocked = refl;
  map_live = λ q r e. ground arith;
  holds = inl (refl, refl);
}
named_each second_array = record {
  real = λ e. omega arith;
  own = λ e. omega arith;
  at = refl;
  in_use = inl refl;
  here = λ e. omega arith;
  live = λ s h. ground arith;
  unlocked = refl;
  map_live = λ q r e. ground arith;
  holds = inl (refl, refl);
}

named_apart_records :
    (n k : Name) → n ≢ k → (named_arrays n).pointer_record ≢ (named_arrays k).pointer_record
named_apart_records first_array first_array h e = h refl
named_apart_records first_array second_array h e = omega arith
named_apart_records second_array first_array h e = omega arith
named_apart_records second_array second_array h e = h refl

named-Apart : (n k : Name) → n ≢ k → Apart (named_records n) (named_records k)
unfolding space_dec
named-Apart first_array first_array h s t here e = absurd (h refl)
named-Apart first_array second_array h s t here e = ground arith
named-Apart second_array first_array h s t here e = ground arith
named-Apart second_array second_array h s t here e = absurd (h refl)

named-IsFamily : IsFamily laws both_start named_arrays named_records named_values
named-IsFamily = record {
  each = named_each;
  apart_records = named_apart_records;
  apart = named-Apart;
}

-- The first array gets the second's value twice on the GPU, and then the second the first's on the CPU.
abbrev two_kernels : List (Kernel Name ℕ)
two_kernels =
    record {
      policy = gpu_async;
      begin = 0;
      end = 2;
      source = second_array;
      target = first_array;
      combine = λ i x y. x + y;
    }
    ∷ record {
      policy = sequential;
      begin = 0;
      end = 1;
      source = first_array;
      target = second_array;
      combine = λ i x y. y;
    }
    ∷ []

some_memory :
    (n : Name) → ((named_arrays n).active_base_pointer ≢ nullptr) ⊎ (0 < (named_arrays n).elems)
some_memory first_array = inl (λ e. omega arith)
some_memory second_array = inl (λ e. omega arith)

run_program-apply_program_example :
    (w' : World env) × (run_program env block_of store_block
        (λ n. four_bytes)
        named_arrays
        two_kernels
        both_start
      ≡ done tt w')
    × ((policy : Policy) (n : Name) (U : Element)
        → (b : ManagedArray) × (w'' : World env) × (copy U
              (named_arrays n)
              (in_space (policy_space policy) w')
            ≡ done b w'')
          × (w''.umpire.block b.active_base_pointer
              ≡ apply_program name_dec two_kernels named_values n))
run_program-apply_program_example =
    run_program-apply_program laws store_block-laws name_dec named_arrays (λ n. four_bytes) refl
      (concrete-MapLaws simulated) some_memory two_kernels both_start named-IsFamily
