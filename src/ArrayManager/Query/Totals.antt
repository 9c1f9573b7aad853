-- ===== src/ArrayManager/Query/Totals.antt =====
-- ArrayManager::getTotalSize and getSize.
use chai.Umpire.{RecordPointer, Env, Pointer}
use chai.ArrayManager.Query.{get_total_size, total_size_loop}
use chai.Base.{
  Option, none, List, ◌≡◌, false, ℕ, some, All, ◌<◌, ◌∷◌, size_mod, ◌%◌, ◌+◌, arith, [], true, ◌∙◌,
  ap, sym,
}
use chai.World.{World, PointerRecord, done, with_lock-done}

abbrev pub size_at : Option PointerRecord → ℕ
size_at none = 0
size_at (some p) = p.size

-- The sum of the sizes of the entries' records, where 0 stands for a record that is not there.
abbrev pub sum_sizes : (RecordPointer → Option PointerRecord) → List (Pointer × RecordPointer) → ℕ
sum_sizes heap [] = 0
sum_sizes heap ((_, r) ∷ es) = size_at (heap r) + sum_sizes heap es

abbrev pub Lives : (RecordPointer → Option PointerRecord) → Pointer × RecordPointer → Type 0
Lives heap (_, r) = (p : PointerRecord) × (heap r ≡ some p)

module _ {E : Env} where
  total_size_loop-sum :
      (es : List (Pointer × RecordPointer)) (total : ℕ) (w : World E)
      → total < size_mod
      → All (Lives w.heap) es
      → total_size_loop es total w ≡ done ((total + sum_sizes w.heap es) % size_mod) w
  unfolding total_size_loop
  total_size_loop-sum [] total w small lives = ground arith
  total_size_loop-sum ((q, r) ∷ es) total w small ((p, at), rest) =
      ground (arith, total_size_loop-sum es ((total + p.size) % size_mod) w)

-- `getTotalSize` is the sum of the sizes of the map's records, modulo 2 ^ 64, and changes nothing;
-- the mutex is free, and each entry of the map is a record on the heap.
pub get_total_size-sum :
    {E : Env} (w : World E)
    → w.locked ≡ false
    → All (Lives w.heap) (E.entries w.pointer_map)
    → get_total_size w ≡ done (sum_sizes w.heap (E.entries w.pointer_map) % size_mod) w
unfolding get_total_size
get_total_size-sum {E} w unlocked lives =
    let total : ℕ = sum_sizes w.heap (E.entries w.pointer_map) in
    let from_zero : 0 + total ≡ total = omega arith in
    with_lock-done _ w unlocked (
      total_size_loop-sum (E.entries w.pointer_map) 0 (record w { locked = true }) (omega arith)
        lives)
    ∙ ap (λ n. done (n % size_mod) (record w { locked = false })) from_zero
    ∙ ap (λ b. done (total % size_mod) (record w { locked = b })) (sym unlocked)
