-- ===== src/Tests/Moves.antt =====
-- Moves and evictions of the array of `start`.
use chai.Umpire.{ManagerLaws}
use chai.ArrayManager.Move.Coherence.{IsReady, IsMovable, Latest}
use chai.Space.{space_dec, spaces, cpu, gpu}
use chai.World.{World, PointerRecord, fault, deadlock, done}
use chai.Tests.Worlds.{env, start, simulated, written}
use chai.ArrayManager.Evict.{evict}
use chai.Base.{ℕ, arith, ◌≡◌, inl, refl, false, if◌then◌else◌, ◌==◌, some}
use chai.Umpire.Concrete.{block_of, IsLive, concrete-ManagerLaws, concrete-MapLaws}
use chai.ArrayManager.Move.Follow.{Followed, move-register_touch}
use chai.ArrayManager.Evict.Passes.{evict-deadlock}
use chai.ArrayManager.Move.{move_record}
use chai.ArrayManager.Move.Stale.{move_record-stale}

abbrev pub laws : ManagerLaws env ℕ block_of IsLive
laws = concrete-ManagerLaws simulated

pub start-IsReady : IsReady laws start
start-IsReady = record { unlocked = refl; map_live = λ q r e. ground arith }

pub written-Latest : Latest laws start 2 written 42
unfolding space_dec
written-Latest = record {
  real = λ e. omega arith;
  own = λ e. omega arith;
  at = refl;
  spaced = λ e. cc;
  touched = refl;
  here = λ e. omega arith;
  value = refl;
  live = λ s h. ground arith;
}

pub written-IsMovable : IsMovable simulated written
written-IsMovable = record { not_um = λ e. cc; not_pinned = λ e. cc }

move-register_touch_example :
    (w' : World env) × (p' : PointerRecord) × Followed laws start 2 written gpu 42 w' p'
move-register_touch_example =
    move-register_touch laws gpu start-IsReady written-Latest (λ e. cc) (concrete-MapLaws simulated)
      written-IsMovable

evict-deadlock_example : evict cpu gpu start ≡ fault deadlock
unfolding spaces space_dec
evict-deadlock_example =
    evict-deadlock start cpu gpu refl (λ e. cc) (λ e. cc) (λ e. cc) (inl refl)
      (((λ e. omega arith), (λ e. omega arith), (written, refl)), tt)
      (inl (written, refl, λ e. omega arith))

-- The same array once it is clean, as a move leaves it.
abbrev clean : PointerRecord
clean = record written { touched = λ _. false }

abbrev clean_start : World env
clean_start = record start { heap = λ r. if r == 2 then some clean else start.heap r }

clean_start-IsReady : IsReady laws clean_start
clean_start-IsReady = record { unlocked = refl; map_live = λ q r e. ground arith }

clean-IsMovable : IsMovable simulated clean
clean-IsMovable = record { not_um = λ e. cc; not_pinned = λ e. cc }

move_record-stale_example :
    (w' : World env) × (p' : PointerRecord) × (move_record 2 gpu clean_start ≡ done tt w')
    × (w'.heap 2 ≡ some p')
    × (p'.pointers gpu ≡ 2)
    × (p'.last_space ≡ cpu)
    × (w'.umpire.block (p'.pointers gpu) ≡ 0)
unfolding space_dec
move_record-stale_example =
    move_record-stale laws (concrete-MapLaws simulated) clean_start 2 clean gpu clean_start-IsReady
      (λ e. omega arith) refl (λ e. cc) (λ e. cc) clean-IsMovable refl refl
