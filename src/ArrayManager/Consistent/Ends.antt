-- ===== src/ArrayManager/Consistent/Ends.antt =====
-- ArrayManager::free of a whole record and deregisterPointer keep the invariant.
use chai.Base.{◌≡◌, ◌≢◌, some, none, ap, inl, inr, ◌⊎◌, refl, Bool, if◌then◌else◌, ◌==◌, false}
use chai.Space.{ExecutionSpace, all_spaces}
use chai.Umpire.{Env, Pointer, RecordPointer, MapLaws, ReleaseLaws}
use chai.Umpire.Released.{Released-map}
use chai.World.{PointerRecord, World, null_record, done, put_record}
use chai.ArrayManager.Consistent.{IsConsistent, world-IsConsistent, real_of}
use chai.ArrayManager.Consistent.Removed.{removed-Consistent}
use chai.ArrayManager.Free.{free_record}
use chai.ArrayManager.Free.Clean.{free_record-Freed}
use chai.ArrayManager.Register.{deregister_pointer}
use chai.ArrayManager.Register.Deregister.{deregister_pointer-Cleared}

otherwise : {A B : Type 0} → A ⊎ B → (A → ⊥) → B
otherwise (inl a) h = absurd (h a)
otherwise (inr b) h = b

module _ {E : Env} {IsLive : E.Manager → Pointer → Type 0} (map : MapLaws E)
    (laws : ReleaseLaws E IsLive) {r : RecordPointer} (own : r ≢ null_record) (w : World E)
    (p : PointerRecord) (c : IsConsistent E IsLive w) (at : w.heap r ≡ some p) where
  pub free_record-EndsWell :
      (w' : World E) × (free_record r ExecutionSpace.none w ≡ done tt w') × IsConsistent E IsLive w'
  free_record-EndsWell =
      let (w', runs, f) = free_record-Freed map r (real_of c at) w p at own c.unlocked in
      (
        w',
        runs,
        world-IsConsistent w' f.next_record f.unlocked (
            removed-Consistent c p at w'.heap laws own
              (λ s here. otherwise (f.erased s (c.listed r p s at here).1) here) f.still_none
              (λ q here apart. f.others q here (λ t _. apart t)) f.heap f.released),
      )

  pub deregister_pointer-EndsWell :
      (from_umpire : Bool)
      → (w' : World E) × (deregister_pointer r from_umpire w ≡ done tt w')
        × IsConsistent E IsLive w'
  unfolding all_spaces
  deregister_pointer-EndsWell from_umpire =
      let (w', runs, k) = deregister_pointer-Cleared map r p from_umpire w at own c.unlocked in
      let end : World E = record (put_record r none w') { locked = false } in
      (
        end,
        runs,
        world-IsConsistent end k.next_record refl (
            removed-Consistent c p at end.heap laws own
              (λ s here. otherwise (k.erased s (inr (c.listed r p s at here).1)) here) k.still_none
              (λ q here apart. k.others q (λ t _. apart t))
              (λ q. ap (λ h. if q == r then none else h q) k.heap)
              (Released-map (λ q owned. inr owned) k.released)),
      )
