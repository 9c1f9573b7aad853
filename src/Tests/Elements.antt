-- ===== src/Tests/Elements.antt =====
-- Elements of the array of `start`.
use chai.ArrayManager.Elements.{ElementMemory}
use chai.ArrayManager.Elements.Effect.{ElementLaws}
use chai.Space.{space_dec, update, cpu}
use chai.Tests.Worlds.{env, start, written}
use chai.Tests.Arrays.{four_bytes}
use chai.World.{World, done}
use chai.Base.{leb, ◌&&◌, ◌||◌, ℕ, arith, if◌then◌else◌, refl, ◌==◌, ◌≡◌, some, inr, inl, true}
use chai.ManagedArray.Elements.{set, pick}
use chai.Tests.Kernels.{two}
use chai.ManagedArray.Elements.RoundTrip.{set-pick-pick}

-- The array of `start` has its eight bytes at 1, and a local variable is at 1000.
abbrev numbers : ElementMemory env
numbers = record {
  Value = ℕ;
  mapped = λ p u. (leb 1 p && leb p 8) || p == 1000;
  peek = λ p u. u.block p;
  poke = λ p v u. record u { block = λ q. if q == p then v else u.block q };
  host = 0;
  local = 1000;
}

numbers-laws : ElementLaws numbers four_bytes
numbers-laws = record {
  null_unmapped = λ u. refl;
  local_mapped = λ u. refl;
  poke_mapped = λ p q v u. refl;
  copy_mapped = λ dst src q u. refl;
  register_mapped = λ p q n a u m. m;
  deregister_mapped = λ p q u m. m;
  poke_here = λ p v u m. ground arith;
  poke_other = λ p q v u m apart. ground arith;
  copy_here = λ dst src u m m'. ground arith;
  copy_other = λ dst src q u m m' apart. ground arith;
  register_keeps = λ p q n a u. refl;
  deregister_keeps = λ p q u. refl;
}

set-pick-pick_example :
    (w' : World env) × (w1 : World env) × (w2 : World env) × (w3 : World env) × (x : ℕ) × (set
        numbers four_bytes two 0 5 start
      ≡ done tt w')
    × (w'.heap 2 ≡ some (record written { touched = update written.touched cpu true }))
    × (pick numbers four_bytes two 0 w' ≡ done 5 w1)
    × (pick numbers four_bytes two 1 start ≡ done x w2)
    × (pick numbers four_bytes two 1 w' ≡ done x w3)
unfolding space_dec
set-pick-pick_example =
    set-pick-pick numbers-laws two 0 start written refl refl 5 1 refl refl (inr (omega arith))
      (inl (omega arith))
