-- ===== src/ArrayManager/Free/Clean.antt =====
-- The loop of ArrayManager::free over the spaces of a record, and the record's end.
use chai.Umpire.Released.{Released, untouched, Released-map, Released-trans}
use chai.Umpire.{Env, MapLaws, RecordPointer, nullptr, Pointer}
use chai.World.{World, PointerRecord, for_each, Run, delete, null_record, pure, done, put_record}
use chai.Base.{
  ◌≢◌, List, Option, ◌≡◌, some, if◌then◌else◌, false, arith, ◌==◌, ◌∷◌, [], inr, ◌⊎◌, none, ◌∙◌,
  inl, refl,
}
use chai.Space.{ExecutionSpace, space_dec, spaces}
use chai.ArrayManager.Free.{free_record, free_space, selected}
use chai.ArrayManager.Free.Erase.{Round, free_space-Round}
use chai.Space.Facts.{Visited}

-- Null, or a pointer of the record.
abbrev pub Owns : PointerRecord → Pointer → Type 0
Owns p q = (q ≡ nullptr) ⊎ ((t : ExecutionSpace) × (q ≡ p.pointers t))

pub record Freed {E : Env} (w : World E) (r : RecordPointer) (p : PointerRecord)
    (ss : List ExecutionSpace) (w' : World E) (o : Option PointerRecord) : Type 0 where
  pub heap : (q : RecordPointer) → w'.heap q ≡ (if q == r then o else w.heap q)
  pub next_record : w'.next_record ≡ w.next_record
  pub released : Released E (Owns p) w.umpire w'.umpire
  pub unlocked : w'.locked ≡ false
  pub erased :
      (s : ExecutionSpace)
      → Visited s ss
      → (p.pointers s ≡ nullptr) ⊎ (E.find (p.pointers s) w'.pointer_map ≡ none)
  pub still_none : (q : Pointer) → E.find q w.pointer_map ≡ none → E.find q w'.pointer_map ≡ none
  pub others :
      (q : Pointer)
      → q ≢ nullptr
      → ((s : ExecutionSpace) → Visited s ss → q ≢ p.pointers s)
      → E.find q w'.pointer_map ≡ E.find q w.pointer_map

module _ {E : Env} (map : MapLaws E) (r : RecordPointer) (real : r ≢ nullptr) where
  Freed-nil :
      (w : World E) (p : PointerRecord)
      → w.heap r ≡ some p
      → w.locked ≡ false
      → Freed w r p [] w (some p)
  Freed-nil w p at unlocked = record {
    heap = λ q. ground arith;
    next_record = refl;
    released = untouched refl;
    unlocked = unlocked;
    erased = λ s h. absurd h;
    still_none = λ q e. e;
    others = λ q h k. refl;
  }

  module _ (w w' w'' : World E) (p p' : PointerRecord) (o : Option PointerRecord)
      (s : ExecutionSpace) (ss : List ExecutionSpace) (first : Round w r p s w' p')
      (rest : Freed w' r p' ss w'' o) where
    erased_cons :
        (t : ExecutionSpace)
        → Visited t (s ∷ ss)
        → (p.pointers t ≡ nullptr) ⊎ (E.find (p.pointers t) w''.pointer_map ≡ none)
    erased_cons t (inl same) = ground (arith, rest.still_none (p.pointers t), first.erased)
    erased_cons t (inr later) =
        ground (
          arith,
          rest.still_none (p.pointers t),
          first.erased,
          first.pointers t,
          rest.erased t later,
        )

    others_cons :
        (q : Pointer)
        → q ≢ nullptr
        → ((t : ExecutionSpace) → Visited t (s ∷ ss) → q ≢ p.pointers t)
        → E.find q w''.pointer_map ≡ E.find q w.pointer_map
    others_cons q here apart =
        rest.others q here (λ t later e. ground (arith, first.pointers t, apart t (inr later)))
        ∙ first.others q (apart s (inl refl))

    -- What the record still has after the first round it had before.
    still_owned : (q : Pointer) → Owns p' q → Owns p q
    still_owned q (inl e) = inl e
    still_owned q (inr (t, e)) = elim (first.pointers t) [
      | inl same ↦ inr (t, e ∙ same)
      | inr (_, gone) ↦ inl (e ∙ gone)
    ]

    Freed-cons : Freed w r p (s ∷ ss) w'' o
    Freed-cons = record {
      heap = λ q. ground (arith, rest.heap q, first.heap q);
      next_record = rest.next_record ∙ first.next_record;
      released =
          Released-trans (Released-map (λ q e. inr (s, e)) first.released)
            (Released-map still_owned rest.released);
      unlocked = rest.unlocked;
      erased = erased_cons;
      still_none = λ q e. rest.still_none q (first.still_none q e);
      others = others_cons;
    }

  abbrev round : ExecutionSpace → World E → Run E (Unit {0})
  round s = selected s ExecutionSpace.none (free_space r s) (pure tt)

  round_lem : (s : ExecutionSpace) (w : World E) → round s w ≡ free_space r s w
  unfolding space_dec
  round_lem s w = ground arith

  loop-Freed :
      (ss : List ExecutionSpace) (w : World E) (p : PointerRecord)
      → w.heap r ≡ some p
      → w.locked ≡ false
      → (w' : World E) × (p' : PointerRecord) × (for_each ss round w ≡ done tt w')
        × Freed w r p ss w' (some p')
  unfolding for_each
  loop-Freed [] w p at unlocked = (w, p, refl, Freed-nil w p at unlocked)
  loop-Freed (s ∷ ss) w p at unlocked =
      let (w', p', runs, first) = free_space-Round map w r p s at real unlocked in
      let (w'', p'', rest_runs, rest) =
        loop-Freed ss w' p' (ground (arith, first.heap r)) first.unlocked in
      (w'', p'', ground (arith, round_lem s w), Freed-cons w w' w'' p p' (some p'') s ss first rest)

  -- A free in every space, up to the record's end.
  pub free_record-Freed :
      (w : World E) (p : PointerRecord)
      → w.heap r ≡ some p
      → r ≢ null_record
      → w.locked ≡ false
      → (w' : World E) × (free_record r ExecutionSpace.none w ≡ done tt w')
        × Freed w r p (spaces E.config) w' none
  unfolding free_record delete space_dec
  free_record-Freed w p at kept unlocked =
      let (w', p', runs, freed) = loop-Freed (spaces E.config) w p at unlocked in
      (
        put_record r none w',
        ground (arith, freed.heap r),
        record {
          heap = λ q. ground (arith, freed.heap q);
          next_record = freed.next_record;
          released = freed.released;
          unlocked = freed.unlocked;
          erased = freed.erased;
          still_none = freed.still_none;
          others = freed.others;
        },
      )

  -- Freeing a record in every space, with the mutex free, always returns: the record is deleted and
  -- the other objects of the heap are as before, the mutex is free, the record's pointer in any space
  -- of the build is out of the map, and the entry of any pointer that is neither null nor one of the
  -- record's is unchanged. This holds for every live record but the null record, whatever memory it
  -- owns and shares. The map meets its laws.
  pub free_record-find :
      (w : World E) (p : PointerRecord) (s : ExecutionSpace) (q : Pointer)
      → w.heap r ≡ some p
      → r ≢ null_record
      → w.locked ≡ false
      → Visited s (spaces E.config)
      → q ≢ nullptr
      → ((t : ExecutionSpace) → Visited t (spaces E.config) → q ≢ p.pointers t)
      → (w' : World E) × (free_record r ExecutionSpace.none w ≡ done tt w')
        × ((o : RecordPointer) → w'.heap o ≡ (if o == r then none else w.heap o))
        × (w'.locked ≡ false)
        × ((p.pointers s ≡ nullptr) ⊎ (E.find (p.pointers s) w'.pointer_map ≡ none))
        × (E.find q w'.pointer_map ≡ E.find q w.pointer_map)
  free_record-find w p s q at kept unlocked visited here foreign =
      let (w', runs, freed) = free_record-Freed w p at kept unlocked in
      (w', runs, freed.heap, freed.unlocked, freed.erased s visited, freed.others q here foreign)
