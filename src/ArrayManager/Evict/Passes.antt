-- ===== src/ArrayManager/Evict/Passes.antt =====
-- The two passes of ArrayManager::evict over the map's entries.
use chai.Base.{
  inl, inr, Option, List, ◌≡◌, All, true, ◌≢◌, some, arith, ◌∷◌, sym, ℕ_discrete, ◌⊎◌, ap, ◌∙◌, [],
  refl, false, if_neg,
}
use chai.World.{
  World, for_each, PointerRecord, null_record, Cmd, done, fault, deadlock, pure, free, with_lock,
  with_lock-fault,
}
use chai.Umpire.{RecordPointer, Env, Pointer, nullptr}
use chai.ArrayManager.Evict.Blocked.{SamePointers, Blocked, goes, Blocked-bind, stops}
use chai.Space.{ExecutionSpace, spaces, um, pinned, space_dec}
use chai.ArrayManager.Evict.{bring, Cmd, done, free_record, pure, evict_all, evict}
use chai.ArrayManager.Free.{free_space, release, selected, free_record, release_shared, release_own}
use chai.Space.Facts.{Visited}
use chai.ArrayManager.Callbacks.Log.{callback_lem}
use chai.ArrayManager.Evict.Deadlock.{bring-Blocked}

-- An entry's record is an object on the heap, other than the null record.
abbrev pub Known : (RecordPointer → Option PointerRecord) → Pointer × RecordPointer → Type 0
Known heap (q, r) = (r ≢ nullptr) × (r ≢ null_record) × ((p : PointerRecord) × (heap r ≡ some p))

-- Some entry's record has a pointer in the space.
abbrev pub Occupied :
    (RecordPointer → Option PointerRecord)
    → ExecutionSpace
    → List (Pointer × RecordPointer)
    → Type 0
Occupied heap space [] = ⊥
Occupied heap space ((q, r) ∷ es) =
    ((p : PointerRecord) × (heap r ≡ some p) × (p.pointers space ≢ nullptr))
    ⊎ Occupied heap space es

module _ {E : Env} {w w' : World E} (s : SamePointers w w') where
  pub Known-kept :
      (es : List (Pointer × RecordPointer)) → All (Known w.heap) es → All (Known w'.heap) es
  Known-kept [] k = tt
  Known-kept ((q, r) ∷ es) ((real, own, (p, at)), k) =
      let (p', at', _) = s.same r p at in ((real, own, (p', at')), Known-kept es k)

  pub Occupied-kept :
      (space : ExecutionSpace) (es : List (Pointer × RecordPointer))
      → Occupied w.heap space es
      → Occupied w'.heap space es
  Occupied-kept space [] o = elim o [ ]
  Occupied-kept space ((q, r) ∷ es) (inl (p, at, here)) =
      let (p', at', same) = s.same r p at in
      inl (p', at', λ e. here (sym (ap (λ f. f space) same) ∙ e))
  Occupied-kept space ((q, r) ∷ es) (inr o) = inr (Occupied-kept space es o)

pub first_pass-Blocked :
    {E : Env} (to : ExecutionSpace) (es : List (Pointer × RecordPointer)) (w : World E)
    → w.locked ≡ true
    → All (Known w.heap) es
    → Blocked w (for_each es (bring to) w)
unfolding for_each
first_pass-Blocked to [] w locked k = goes w refl locked (record { same = λ q p h. (p, h, refl) })
first_pass-Blocked to ((q, r) ∷ es) w locked ((real, own, (p, at)), k) =
    Blocked-bind (λ _. for_each es (bring to)) (bring-Blocked w r p to locked real own at q)
      λ w' l s. first_pass-Blocked to es w' l (Known-kept s es k)

module _ {E : Env} (w : World E) (r : RecordPointer) (p : PointerRecord) (space : ExecutionSpace)
    (locked : w.locked ≡ true) (real : r ≢ nullptr) (at : w.heap r ≡ some p) where
  free_space-locked : p.pointers space ≢ nullptr → free_space r space w ≡ fault deadlock
  unfolding free_space release release_shared release_own
  free_space-locked here = ground (
    arith,
    callback_lem w r p real at free um,
    callback_lem w r p real at free pinned,
    callback_lem w r p real at free space,
  )

  free_space-null : p.pointers space ≡ nullptr → free_space r space w ≡ done tt w
  unfolding free_space
  free_space-null gone = ground arith

  abbrev step : ExecutionSpace → Cmd E (Unit {0})
  step s = selected s space (free_space r s) (pure tt)

  steps-null :
      space ≢ ExecutionSpace.none
      → p.pointers space ≡ nullptr
      → (ss : List ExecutionSpace) → for_each ss step w ≡ done tt w
  unfolding for_each
  steps-null spaced gone [] = refl
  steps-null spaced gone (s ∷ ss) = ground (arith, free_space-null gone, steps-null spaced gone ss)

  steps-locked :
      space ≢ ExecutionSpace.none
      → p.pointers space ≢ nullptr
      → (ss : List ExecutionSpace) → Visited space ss
      → for_each ss step w ≡ fault deadlock
  unfolding for_each
  steps-locked spaced here [] v = elim v [ ]
  steps-locked spaced here (s ∷ ss) v = elim (space_dec s space) [
    | yes same ↦ ground (arith, free_space-locked here, ap (λ t. free_space r t w) same)
    | no other ↦ elim v [
      | inl e ↦ absurd (other (sym e))
      | inr v' ↦ ground (arith, steps-locked spaced here ss v')
    ]
  ]

pub second_pass-deadlock :
    {E : Env} (space : ExecutionSpace) (es : List (Pointer × RecordPointer)) (w : World E)
    → w.locked ≡ true
    → space ≢ ExecutionSpace.none
    → Visited space (spaces E.config)
    → All (Known w.heap) es
    → Occupied w.heap space es
    → for_each es (λ (_, r). free_record r space) w ≡ fault deadlock
unfolding for_each free_record
second_pass-deadlock space [] w locked spaced visited k o = elim o [ ]
second_pass-deadlock {E} space ((q, r) ∷ es) w locked spaced visited ((real, own, (p, at)), k) o =
    elim (ℕ_discrete (p.pointers space) nullptr) [
      | no here ↦
          ground
            (arith, steps-locked w r p space locked real at spaced here (spaces E.config) visited)
      | yes gone ↦ elim o [
        | inl (p', at', here) ↦ absurd (here (ground arith))
        | inr o' ↦ ground (
          arith,
          steps-null w r p space locked real at spaced gone (spaces E.config),
          second_pass-deadlock space es w locked spaced visited k o',
        )
      ]
    ]

-- Under the lock, evict never returns.
evict_all-deadlock :
    {E : Env} (w : World E) (space to : ExecutionSpace)
    → w.locked ≡ true
    → space ≢ ExecutionSpace.none
    → Visited space (spaces E.config)
    → All (Known w.heap) (E.entries w.pointer_map)
    → Occupied w.heap space (E.entries w.pointer_map)
    → evict_all space to w ≡ fault deadlock
unfolding evict_all
evict_all-deadlock {E} w space to locked spaced visited k o =
    finish (first_pass-Blocked to (E.entries w.pointer_map) w locked k)
  where
    finish :
        Blocked w (for_each (E.entries w.pointer_map) (bring to) w)
        → evict_all space to w ≡ fault deadlock
    finish (stops d) = rw d
    finish (goes w' d l s) = rw d (
        second_pass-deadlock space (E.entries w.pointer_map) w' l spaced visited (Known-kept s _ k)
          (Occupied-kept s space _ o))

-- Whenever some record of the map has a pointer in the space that is to be evicted, evict locks the
-- mutex that it holds already. The space is one of the build's, the destination another, and each
-- entry of the map is a record on the heap.
pub evict-deadlock :
    {E : Env} (w : World E) (space to : ExecutionSpace)
    → w.locked ≡ false
    → space ≢ ExecutionSpace.none
    → to ≢ ExecutionSpace.none
    → space ≢ to
    → Visited space (spaces E.config)
    → All (Known w.heap) (E.entries w.pointer_map)
    → Occupied w.heap space (E.entries w.pointer_map)
    → evict space to w ≡ fault deadlock
unfolding evict
evict-deadlock {E} w space to unlocked spaced aimed apart visited k o =
    ap (λ (c : Cmd E (Unit {0})). c w)
      (if_neg (space_dec space ExecutionSpace.none) spaced (pure tt) _
        ∙ if_neg (space_dec to ExecutionSpace.none) aimed (pure tt) _
        ∙ if_neg (space_dec space to) apart (pure tt) (with_lock (evict_all space to)))
    ∙ with_lock-fault (evict_all space to) w unlocked
        (evict_all-deadlock (record w { locked = true }) space to refl spaced visited k o)
