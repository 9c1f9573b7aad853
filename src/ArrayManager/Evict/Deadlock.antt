-- ===== src/ArrayManager/Evict/Deadlock.antt =====
-- ArrayManager::evict holds the mutex while it calls move and free, which lock it again.
use chai.Base.{inl, inr, ◌≡◌, arith, ap, true, ◌≢◌, refl, some, ◌⊎◌}
use chai.World.{World, PointerRecord, null_record, called, captured, synchronized, done, put_record}
use chai.Umpire.{Env, RecordPointer, nullptr, Pointer}
use chai.ArrayManager.Evict.{
  bring, RecordPointer, ExecutionSpace, true, move_record, register_touch, Pointer, space_dec, done,
}
use chai.ArrayManager.Evict.Blocked.{
  SamePointers, Blocked, Blocked-bind, goes, Blocked-of_eq, Blocked-from, migrate-Blocked,
  put-SamePointers,
}
use chai.Space.{ExecutionSpace, space_dec}
use chai.ArrayManager.Callbacks.Log.{notified, callback_lem}
use chai.ArrayManager.Move.{move_record, migrate}
use chai.ArrayManager.Touch.{register_touch}
use chai.ArrayManager.Settings.{sync_if_needed}
use chai.ArrayManager.Move.Coherence.{marked}

notified-SamePointers : {E : Env} (w w' : World E) → w'.heap ≡ w.heap → SamePointers w w'
notified-SamePointers w w' e = record { same = λ q o h. (o, ground (arith, ap (λ f. f q) e), refl) }

-- The commands of the first pass, on a record of the map.
module _ {E : Env} (w : World E) (r : RecordPointer) (p : PointerRecord) (to : ExecutionSpace)
    (locked : w.locked ≡ true) (real : r ≢ nullptr) (own : r ≢ null_record)
    (at : w.heap r ≡ some p) where
  abbrev told_capture : World E
  told_capture = notified w r p captured to

  -- The world after `syncIfNeeded` had to wait for the device.
  abbrev synced : World E
  synced = record (called synchronized told_capture.umpire told_capture) {
    synced_since_last_kernel = true;
  }

  move_record-cases :
      to ≢ ExecutionSpace.none
      → (move_record r to w ≡ done tt told_capture)
        ⊎ ((move_record r to w ≡ done tt synced) ⊎ (move_record r to w ≡ migrate r to told_capture))
  unfolding move_record sync_if_needed
  move_record-cases spaced = ground (arith, callback_lem w r p real at captured to)

  move_record-Blocked : Blocked w (move_record r to w)
  move_record-Blocked = elim (space_dec to ExecutionSpace.none) [
    | yes e ↦ goes w (unfold move_record in ground arith) locked (notified-SamePointers w w refl)
    | no spaced ↦ elim (move_record-cases spaced) [
      | inl e ↦ goes told_capture e locked (notified-SamePointers w told_capture refl)
      | inr (inl e) ↦ goes synced e locked (notified-SamePointers w synced refl)
      | inr (inr e) ↦ Blocked-of_eq e (
          Blocked-from (notified-SamePointers w told_capture refl)
            (migrate-Blocked told_capture r p to locked real at own))
    ]
  ]

module _ {E : Env} (w : World E) (r : RecordPointer) (p : PointerRecord) (to : ExecutionSpace)
    (locked : w.locked ≡ true) (real : r ≢ nullptr) (own : r ≢ null_record)
    (at : w.heap r ≡ some p) where
  register_touch-Blocked : Blocked w (register_touch r to w)
  unfolding register_touch
  register_touch-Blocked = elim (space_dec to ExecutionSpace.none) [
    | yes e ↦ goes w (ground arith) locked (notified-SamePointers w w refl)
    | no spaced ↦ goes (put_record r (some (marked p to)) w) (ground arith) locked (
        put-SamePointers w (put_record r (some (marked p to)) w) r p (marked p to) at (λ q. refl)
          refl)
  ]

pub bring-Blocked :
    {E : Env} (w : World E) (r : RecordPointer) (p : PointerRecord) (to : ExecutionSpace)
    → w.locked ≡ true
    → r ≢ nullptr
    → r ≢ null_record
    → w.heap r ≡ some p
    → (q : Pointer) → Blocked w (bring to (q, r) w)
unfolding bring
bring-Blocked w r p to locked real own at q =
    Blocked-bind (λ _. register_touch r to) (move_record-Blocked w r p to locked real own at)
      λ w' l s. let (p', at', _) = s.same r p at in register_touch-Blocked w' r p' to l real own at'
