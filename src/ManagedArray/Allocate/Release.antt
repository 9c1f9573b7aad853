-- ===== src/ManagedArray/Allocate/Release.antt =====
-- The end of an array (ManagedArray::free).
use chai.ManagedArray.Allocate.{free, adopt}
use chai.ManagedArray.Handle.{not_nullptr, is_nullptr, to_bool, Element, ManagedArray, empty_array}
use chai.Space.{space_dec, ExecutionSpace, spaces}
use chai.Umpire.{Env, MapLaws, nullptr}
use chai.World.{World, PointerRecord, null_record, done}
use chai.Base.{◌≡◌, false, ◌≢◌, ◌<◌, some, none, true, arith, refl, ◌⊎◌}
use chai.ArrayManager.Free.Clean.{free_record-Freed}
use chai.Space.Facts.{Visited}

-- Freeing an array in every space, which is not a slice and not empty, always returns, deletes its
-- record, takes its pointer in any space of the build out of the map, and leaves a handle that compares equal to nullptr, has no
-- elements and is no longer tied to the record; freeing that handle again changes nothing. The
-- record is live and neither null nor the null record, the mutex is free, and the map meets its laws.
pub free-free :
    {E : Env} (map : MapLaws E) (T : Element) (a : ManagedArray) (w : World E) (p : PointerRecord)
    (s : ExecutionSpace)
    → a.is_slice ≡ false
    → a.active_pointer ≢ nullptr
    → 0 < a.elems
    → a.pointer_record ≢ nullptr
    → a.pointer_record ≢ null_record
    → w.heap a.pointer_record ≡ some p
    → w.locked ≡ false
    → Visited s (spaces E.config)
    → (a' : ManagedArray) × (w' : World E) × (free T a ExecutionSpace.none w ≡ done a' w')
      × (w'.heap a.pointer_record ≡ none)
      × ((p.pointers s ≡ nullptr) ⊎ (E.find (p.pointers s) w'.pointer_map ≡ none))
      × (is_nullptr a' ≡ true)
      × (to_bool a' ≡ false)
      × (a'.pointer_record ≡ null_record)
      × (free T a' ExecutionSpace.none w' ≡ done a' w')
unfolding free adopt not_nullptr is_nullptr to_bool space_dec
free-free map T a w p s whole here filled real own at unlocked visited =
    let (w', runs, freed) = free_record-Freed map a.pointer_record real w p at own unlocked in
    (
      record empty_array { has_manager = true; is_slice = a.is_slice },
      w',
      ground (arith, runs),
      ground (arith, freed.heap a.pointer_record),
      freed.erased s visited,
      refl,
      refl,
      refl,
      ground arith,
    )
