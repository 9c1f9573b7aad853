-- ===== src/ArrayManager/Free/Single.antt =====
-- ArrayManager::free of the memory in one space.
use chai.Base.{◌≡◌, ◌≢◌, some, none, false, List, [], ◌∷◌, inl, arith, sym, subst, inr, refl}
use chai.Space.{ExecutionSpace, spaces}
use chai.Space.Facts.{Visited, IsSimple, spaces-IsSimple}
use chai.Umpire.{Env, RecordPointer, nullptr, MapLaws}
use chai.ArrayManager.Free.{free_record, free_space, selected}
use chai.ArrayManager.Free.Effect.{given_up, free_space-unowned}
use chai.World.{World, for_each, Run, done, PointerRecord, pure, null_record}
use chai.ArrayManager.Query.{get_pointer_record}

module _ {E : Env} (r : RecordPointer) (space : ExecutionSpace)
    (spaced : space ≢ ExecutionSpace.none) where
  abbrev round : ExecutionSpace → World E → Run E (Unit {0})
  round s = selected s space (free_space r s) (pure tt)

  -- The loop leaves the other spaces out.
  loop-skip :
      (ss : List ExecutionSpace) (w : World E)
      → ¬ (Visited space ss)
      → for_each ss round w ≡ done tt w
  unfolding for_each
  loop-skip [] w h = refl
  loop-skip (s ∷ ss) w h =
      let other : s ≢ space = λ e. h (inl (sym e)) in
      ground (arith, loop-skip ss w (λ v. h (inr v)))

  loop-once :
      (ss : List ExecutionSpace) (w : World E) {w' : World E}
      → IsSimple ss
      → Visited space ss
      → free_space r space w ≡ done tt w'
      → for_each ss round w ≡ done tt w'
  unfolding for_each
  loop-once [] w simple v runs = absurd v
  loop-once (s ∷ ss) w {w'} simple (inl e) runs =
      let rest : ¬ (Visited space ss) = subst (λ t. ¬ (Visited t ss)) (sym e) simple.0 in
      ground (arith, loop-skip ss w' rest)
  loop-once (s ∷ ss) w simple (inr v) runs =
      let other : s ≢ space = λ e. simple.0 (subst (λ t. Visited t ss) (sym e) v) in
      ground (arith, loop-once ss w simple.1 v runs)

  pub free_record-space :
      (w : World E) {w' : World E}
      → r ≢ nullptr
      → Visited space (spaces E.config)
      → free_space r space w ≡ done tt w'
      → free_record r space w ≡ done tt w'
  unfolding free_record
  free_record-space w real visited runs =
      ground (arith, loop-once (spaces E.config) w (spaces-IsSimple E.config) visited runs)

  -- Freeing memory in one space that the record does not own returns: the map no longer has the
  -- pointer, and getPointerRecord yields the null record for it, but the record still has it there. The
  -- space is one of the build's and not NONE, the record is live, not null and has memory there, the
  -- mutex is free, and the map meets its laws.
  pub free_record-unowned :
      MapLaws E
      → (w : World E) (p : PointerRecord) → r ≢ nullptr
      → w.heap r ≡ some p
      → w.locked ≡ false
      → Visited space (spaces E.config)
      → p.pointers space ≢ nullptr
      → p.owned space ≡ false
      → (w' : World E) × (free_record r space w ≡ done tt w')
        × (w'.heap r ≡ some p)
        × (E.find (p.pointers space) w'.pointer_map ≡ none)
        × (get_pointer_record (p.pointers space) w' ≡ done null_record w')
  unfolding get_pointer_record
  free_record-unowned map w p real at unlocked visited here foreign = (
    given_up w r p (p.pointers space),
    free_record-space w real visited (free_space-unowned w r p space real unlocked at here foreign),
    at,
    map.find_erase (p.pointers space) w.pointer_map,
    ground (arith, map.find_erase (p.pointers space) w.pointer_map),
  )
