-- ===== src/ArrayManager/Free/Erase.antt =====
-- The rounds of the loop of ArrayManager::free, and the map.
use chai.Base.{
  inl, inr, List, ◌≡◌, some, if◌then◌else◌, ◌⊎◌, false, none, ◌==◌, ◌≢◌, ◌∷◌, arith, ℕ_discrete,
  ◌∙◌, refl, [], Bool-cases, true, ap, sym, if_neg, if_pos,
}
use chai.World.{World, PointerRecord, done}
use chai.Umpire.Released.{Released, untouched, deallocated, deregistered}
use chai.Umpire.{Env, RecordPointer, MapLaws, Pointer, nullptr}
use chai.ArrayManager.Free.{forget, free_space}
use chai.Space.{ExecutionSpace, update, space_dec, um, spaces, pinned}
use chai.ArrayManager.Free.Effect.{
  given_up, given_back, free_space-null, free_space-unowned, free_space-um, free_space-own,
  free_space-pinned,
}

-- One round, from the record `p` to the record `p'`.
pub record Round {E : Env} (w : World E) (r : RecordPointer) (p : PointerRecord)
    (s : ExecutionSpace) (w' : World E) (p' : PointerRecord) : Type 0 where
  pub next_record : w'.next_record ≡ w.next_record
  pub released : Released E (λ q. q ≡ p.pointers s) w.umpire w'.umpire
  pub heap : (q : RecordPointer) → w'.heap q ≡ (if q == r then some p' else w.heap q)
  pub unlocked : w'.locked ≡ false
  pub erased : (p.pointers s ≡ nullptr) ⊎ (E.find (p.pointers s) w'.pointer_map ≡ none)
  pub pointers :
      (t : ExecutionSpace)
      → (p'.pointers t ≡ p.pointers t) ⊎ ((p.pointers t ≡ p.pointers s) × (p'.pointers t ≡ nullptr))
  pub still_none : (q : Pointer) → E.find q w.pointer_map ≡ none → E.find q w'.pointer_map ≡ none
  pub others : (q : Pointer) → q ≢ p.pointers s → E.find q w'.pointer_map ≡ E.find q w.pointer_map

pub forget_cases :
    (ss : List ExecutionSpace) (q : Pointer) (f : ExecutionSpace → Pointer) (t : ExecutionSpace)
    → (forget ss q f t ≡ f t) ⊎ ((f t ≡ q) × (forget ss q f t ≡ nullptr))
unfolding forget
forget_cases [] q f t = inl refl
forget_cases (s ∷ ss) q f t =
    ground (arith, forget_cases ss q (if q == f s then update f s nullptr else f) t)

module _ {E : Env} (map : MapLaws E) (w : World E) (r : RecordPointer) (p : PointerRecord)
    (s : ExecutionSpace) (at : w.heap r ≡ some p) where
  Round-null : w.locked ≡ false → p.pointers s ≡ nullptr → Round w r p s w p
  Round-null unlocked gone = record {
    next_record = refl;
    released = untouched refl;
    heap = λ q. ground arith;
    unlocked = unlocked;
    erased = inl gone;
    pointers = λ t. inl refl;
    still_none = λ q e. e;
    others = λ q h. refl;
  }

  still_none_erase :
      (q : Pointer)
      → E.find q w.pointer_map ≡ none
      → E.find q (E.erase (p.pointers s) w.pointer_map) ≡ none
  still_none_erase q e = elim (ℕ_discrete q (p.pointers s)) [
    | yes same ↦ rw same (map.find_erase (p.pointers s) w.pointer_map)
    | no other ↦ map.find_erase_other (p.pointers s) q w.pointer_map other ∙ e
  ]

  Round-given_up : Round w r p s (given_up w r p (p.pointers s)) p
  Round-given_up = record {
    next_record = refl;
    released = deregistered (p.pointers s) (untouched refl) refl refl;
    heap = λ q. ground arith;
    unlocked = refl;
    erased = inr (map.find_erase (p.pointers s) w.pointer_map);
    pointers = λ t. inl refl;
    still_none = still_none_erase;
    others = λ q h. map.find_erase_other (p.pointers s) q w.pointer_map h;
  }

  Round-given_back :
      (shared : ExecutionSpace) (f : ExecutionSpace → Pointer)
      → ((t : ExecutionSpace)
          → (f t ≡ p.pointers t) ⊎ ((p.pointers t ≡ p.pointers s) × (f t ≡ nullptr)))
      → Round w r p s (given_back w r p shared (p.pointers s) f) (record p { pointers = f })
  Round-given_back shared f same = record {
    next_record = refl;
    released = deallocated (p.allocators shared) (p.pointers s) (untouched refl) refl refl;
    heap = λ q. refl;
    unlocked = refl;
    erased = inr (map.find_erase (p.pointers s) w.pointer_map);
    pointers = same;
    still_none = still_none_erase;
    others = λ q h. map.find_erase_other (p.pointers s) q w.pointer_map h;
  }

  update_cases :
      (t : ExecutionSpace)
      → (update p.pointers s nullptr t ≡ p.pointers t)
        ⊎ ((p.pointers t ≡ p.pointers s) × (update p.pointers s nullptr t ≡ nullptr))
  update_cases t = elim (space_dec s t) [
    | yes e ↦ inr (ap p.pointers (sym e), if_pos (space_dec s t) e nullptr (p.pointers t))
    | no ne ↦ inl (if_neg (space_dec s t) ne nullptr (p.pointers t))
  ]

  -- Memory that the record owns: of the space alone, of UM, or of PINNED.
  free_space-owned :
      r ≢ nullptr
      → w.locked ≡ false
      → p.pointers s ≢ nullptr
      → p.owned s ≡ true
      → (shared : ExecutionSpace) × (f : ExecutionSpace → Pointer) × (free_space r s w
          ≡ done tt (given_back w r p shared (p.pointers s) f))
        × ((t : ExecutionSpace)
            → (f t ≡ p.pointers t) ⊎ ((p.pointers t ≡ p.pointers s) × (f t ≡ nullptr)))
  free_space-owned real unlocked here own = elim (Bool-cases E.config.um) [
    | inl u ↦ elim (ℕ_discrete (p.pointers s) (p.pointers um)) [
      | yes e ↦ (
        _,
        _,
        free_space-um w r p s real unlocked at here own u e,
        forget_cases (spaces E.config) (p.pointers s) p.pointers,
      )
      | no ne ↦
          (_, _, free_space-own w r p s real unlocked at here own (λ _. ne) (λ v. cc), update_cases)
    ]
    | inr u ↦ elim (Bool-cases E.config.pinned) [
      | inr v ↦ (
        _,
        _,
        free_space-own w r p s real unlocked at here own (λ x. cc) (λ _ x. cc),
        update_cases,
      )
      | inl v ↦ elim (ℕ_discrete (p.pointers s) (p.pointers pinned)) [
        | yes e ↦ (
          _,
          _,
          free_space-pinned w r p s real unlocked at here own u v e,
          forget_cases (spaces E.config) (p.pointers s) p.pointers,
        )
        | no ne ↦ (
          _,
          _,
          free_space-own w r p s real unlocked at here own (λ x. cc) (λ _ _. ne),
          update_cases,
        )
      ]
    ]
  ]

  -- Every branch of a round is one of these.
  pub free_space-Round :
      r ≢ nullptr
      → w.locked ≡ false
      → (w' : World E) × (p' : PointerRecord) × (free_space r s w ≡ done tt w')
        × Round w r p s w' p'
  free_space-Round real unlocked = elim (ℕ_discrete (p.pointers s) nullptr) [
    | yes gone ↦ (w, p, free_space-null w r p s real unlocked at gone, Round-null unlocked gone)
    | no here ↦ elim (Bool-cases (p.owned s)) [
      | inr foreign ↦
          (_, _, free_space-unowned w r p s real unlocked at here foreign, Round-given_up)
      | inl own ↦
          let (shared, f, runs, same) = free_space-owned real unlocked here own in
          (_, _, runs, Round-given_back shared f same)
    ]
  ]
