-- ===== src/ArrayManager/Register/Deregister.antt =====
-- ArrayManager::deregisterPointer, and the map.
use chai.Umpire.Released.{Released, untouched, deregistered, Released-trans}
use chai.Umpire.{Env, MapLaws, RecordPointer, Pointer, nullptr}
use chai.World.{
  World, PointerRecord, for_each, called, deregistered, done, null_record, put_record, delete,
  with_lock-done,
}
use chai.Base.{
  List, Bool, ◌≡◌, if◌then◌else◌, ◌∷◌, [], some, arith, ◌⊎◌, ◌≢◌, none, ℕ_discrete, ap, false, ◌∙◌,
  refl, inl, Bool-cases, ◌==◌, inr, true,
}
use chai.Space.{ExecutionSpace, all_spaces}
use chai.ArrayManager.Register.{deregister_space, deregister_pointer}
use chai.Space.Facts.{Visited}

-- The loop over the spaces, from the world `w`, for a record `p` that it leaves alone.
pub record Cleared {E : Env} (w : World E) (p : PointerRecord) (ss : List ExecutionSpace)
    (w' : World E) : Type 0 where
  pub heap : w'.heap ≡ w.heap
  pub locked : w'.locked ≡ w.locked
  pub next_record : w'.next_record ≡ w.next_record
  pub released : Released E (λ q. (t : ExecutionSpace) × (q ≡ p.pointers t)) w.umpire w'.umpire
  pub erased :
      (s : ExecutionSpace)
      → Visited s ss
      → (p.pointers s ≡ nullptr) ⊎ (E.find (p.pointers s) w'.pointer_map ≡ none)
  pub still_none : (q : Pointer) → E.find q w.pointer_map ≡ none → E.find q w'.pointer_map ≡ none
  pub others :
      (q : Pointer)
      → ((s : ExecutionSpace) → Visited s ss → q ≢ p.pointers s)
      → E.find q w'.pointer_map ≡ E.find q w.pointer_map

module _ {E : Env} (map : MapLaws E) (r : RecordPointer) (p : PointerRecord)
    (from_umpire : Bool) where
  -- The world once a space's pointer is out of the map, and of Umpire where it is asked.
  abbrev removed : Pointer → World E → World E
  removed q w =
      record (if from_umpire
        then called (deregistered q) (E.deregister_allocation q w.umpire) w
        else w) { pointer_map = E.erase q w.pointer_map }

  removed-Released :
      (w : World E) (s : ExecutionSpace)
      → Released E
          (λ q. (t : ExecutionSpace) × (q ≡ p.pointers t))
          w.umpire
          (removed (p.pointers s) w).umpire
  removed-Released w s = elim (Bool-cases from_umpire) [
    | inl yes_ ↦ deregistered (p.pointers s) (untouched refl) (s, refl) (rw yes_ refl)
    | inr no_ ↦ untouched (rw no_ refl)
  ]

  removed-Cleared :
      (w : World E) (s : ExecutionSpace) → Cleared w p (s ∷ []) (removed (p.pointers s) w)
  removed-Cleared w s = record {
    heap = ground arith;
    next_record = ground arith;
    released = removed-Released w s;
    locked = ground arith;
    erased = λ t v. ground (arith, map.find_erase (p.pointers s) w.pointer_map);
    still_none = λ q e. elim (ℕ_discrete q (p.pointers s)) [
      | yes same ↦ rw same (map.find_erase (p.pointers s) w.pointer_map)
      | no other ↦ map.find_erase_other (p.pointers s) q w.pointer_map other ∙ e
    ];
    others = λ q h. map.find_erase_other (p.pointers s) q w.pointer_map (h s (inl refl));
  }

  absent-Cleared :
      (w : World E) (s : ExecutionSpace) → p.pointers s ≡ nullptr → Cleared w p (s ∷ []) w
  absent-Cleared w s gone = record {
    heap = refl;
    next_record = refl;
    released = untouched refl;
    locked = refl;
    erased = λ t v. ground arith;
    still_none = λ q e. e;
    others = λ q h. refl;
  }

  deregister_space-Cleared :
      (w : World E) (s : ExecutionSpace)
      → w.heap r ≡ some p
      → (w' : World E) × (deregister_space r from_umpire s w ≡ done tt w') × Cleared w p (s ∷ []) w'
  unfolding deregister_space
  deregister_space-Cleared w s at = elim (ℕ_discrete (p.pointers s) nullptr) [
    | yes gone ↦ (w, ground arith, absent-Cleared w s gone)
    | no here ↦ (removed (p.pointers s) w, ground arith, removed-Cleared w s)
  ]

  loop-Cleared :
      (ss : List ExecutionSpace) (w : World E)
      → w.heap r ≡ some p
      → (w' : World E) × (for_each ss (deregister_space r from_umpire) w ≡ done tt w')
        × Cleared w p ss w'
  unfolding for_each
  loop-Cleared [] w at = (
    w,
    refl,
    record {
      heap = refl;
      next_record = refl;
      released = untouched refl;
      locked = refl;
      erased = λ s v. absurd v;
      still_none = λ q e. e;
      others = λ q h. refl;
    },
  )
  loop-Cleared (s ∷ ss) w at =
      let (w', runs, first) = deregister_space-Cleared w s at in
      let (w'', rest_runs, rest) = loop-Cleared ss w' (ap (λ h. h r) first.heap ∙ at) in
      (
        w'',
        ground arith,
        record {
          heap = rest.heap ∙ first.heap;
          next_record = rest.next_record ∙ first.next_record;
          released = Released-trans first.released rest.released;
          locked = rest.locked ∙ first.locked;
          erased = λ t v. elim v [
            | inl e ↦ ground (first.erased t (inl e), rest.still_none (p.pointers t), arith)
            | inr l ↦ rest.erased t l
          ];
          still_none = λ q e. rest.still_none q (first.still_none q e);
          others = λ q h.
              rest.others q (λ t v. h t (inr v))
              ∙ first.others q (λ t v. elim v [ inl e ↦ h t (inl e) | inr x ↦ absurd x ]);
        },
      )

  -- The loop, and the record's end.
  pub deregister_pointer-Cleared :
      (w : World E)
      → w.heap r ≡ some p
      → r ≢ null_record
      → w.locked ≡ false
      → (w' : World E) × (deregister_pointer r from_umpire w
          ≡ done tt (record (put_record r none w') { locked = false }))
        × Cleared (record w { locked = true }) p (all_spaces E.config) w'
  unfolding deregister_pointer delete
  deregister_pointer-Cleared w at kept unlocked =
      let (w', runs, c) = loop-Cleared (all_spaces E.config) (record w { locked = true }) at in
      let there : w'.heap r ≡ some p = ap (λ h. h r) c.heap ∙ at in
      (w', with_lock-done _ w unlocked {w' = put_record r none w'} (ground (arith, runs, there)), c)

  -- Deregistering a record that is live and not the null record always returns: the record is
  -- deleted and the other objects of the heap are as before, the mutex is free as it was, the
  -- record's pointer in any space of the build is out of the map, and the entry of any pointer that is
  -- none of the record's is unchanged. The map meets its laws.
  pub deregister_pointer-find :
      (w : World E) (s : ExecutionSpace) (q : Pointer)
      → w.heap r ≡ some p
      → r ≢ null_record
      → w.locked ≡ false
      → Visited s (all_spaces E.config)
      → ((t : ExecutionSpace) → Visited t (all_spaces E.config) → q ≢ p.pointers t)
      → (w' : World E) × (deregister_pointer r from_umpire w ≡ done tt w')
        × (w'.heap ≡ (λ o. if o == r then none else w.heap o))
        × (w'.locked ≡ false)
        × ((p.pointers s ≡ nullptr) ⊎ (E.find (p.pointers s) w'.pointer_map ≡ none))
        × (E.find q w'.pointer_map ≡ E.find q w.pointer_map)
  deregister_pointer-find w s q at kept unlocked visited foreign =
      let (w', runs, c) = deregister_pointer-Cleared w at kept unlocked in
      (
        record (put_record r none w') { locked = false },
        runs,
        ap (λ h o. if o == r then none else h o) c.heap,
        refl,
        c.erased s visited,
        c.others q foreign,
      )
