-- ===== src/ArrayManager/Consistent/Reallocates.antt =====
-- The loops of ArrayManager::reallocate, for an array with memory in any of the spaces.
use chai.Base.{ℕ, ◌≡◌, ◌≢◌, some, List, [], ◌∷◌, ℕ_discrete, arith, refl, ◌∙◌}
use chai.Umpire.{Env, Pointer, RecordPointer, nullptr, ManagerLaws, ReleaseLaws, MapLaws}
use chai.World.{for_each, World, PointerRecord, done, null_record, Run}
use chai.ArrayManager.Reallocate.{reallocate_space}
use chai.Space.{ExecutionSpace}
use chai.ArrayManager.Consistent.{IsConsistent}
use chai.ArrayManager.Consistent.Dropped.{IsExclusive}
use chai.ArrayManager.Consistent.Exchanged.{Round, end-Round}

module _ {E : Env} {Block : Type 0} {contents : E.Manager → Pointer → Block}
    {IsLive : E.Manager → Pointer → Type 0} (laws : ManagerLaws E Block contents IsLive)
    (releases : ReleaseLaws E IsLive) (map : MapLaws E) {r : RecordPointer} (own : r ≢ null_record)
    (new_size num_bytes : ℕ) where
  none_done :
      (w : World E) (p : PointerRecord)
      → IsConsistent E IsLive w
      → w.heap r ≡ some p
      → IsExclusive p
      → Round releases r num_bytes w p (done tt w) w p
  none_done w p c at alone = record {
    runs = refl;
    at = at;
    consistent = c;
    alone = alone;
    size = refl;
    empty = λ s h. h;
    full = λ s h. h;
    copied = λ s i h l. refl;
    others = λ q o. (o, λ i. refl);
  }

  Round-trans :
      {w w' w'' : World E} {p p' p'' : PointerRecord} {run : Run E (Unit {0})}
      (next : Run E (Unit {0})) (whole : Run E (Unit {0}))
      → Round releases r num_bytes w p run w' p'
      → Round releases r num_bytes w' p' next w'' p''
      → whole ≡ next
      → Round releases r num_bytes w p whole w'' p''
  Round-trans next whole first rest same = record {
    runs = same ∙ rest.runs;
    at = rest.at;
    consistent = rest.consistent;
    alone = rest.alone;
    size = rest.size ∙ first.size;
    empty = λ s h. rest.empty s (first.empty s h);
    full = λ s h. rest.full s (first.full s h);
    copied = λ s i h l. rest.copied s i (first.full s h) l ∙ first.copied s i h l;
    others = λ q o.
        let (o', same) = first.others q o in
        let (o'', same') = rest.others q o' in (o'', λ i. same' i ∙ same i);
  }

  reallocate_space-Round :
      (w : World E) (p : PointerRecord) (space : ExecutionSpace)
      → IsConsistent E IsLive w
      → w.heap r ≡ some p
      → IsExclusive p
      → (w' : World E) × (p' : PointerRecord) × Round releases r num_bytes w p
          (reallocate_space r new_size num_bytes space w)
          w'
          p'
  unfolding reallocate_space
  reallocate_space-Round w p space c at alone = elim (ℕ_discrete (p.pointers space) nullptr) [
    | yes gone ↦ (
      w,
      p,
      Round-trans (done tt w) _ (none_done w p c at alone) (none_done w p c at alone)
          (ground arith),
    )
    | no here ↦ (
      _,
      _,
      end-Round laws releases map own new_size num_bytes w p space c at alone
          (c.listed r p space at here).1 here,
    )
  ]

  pub loop-Round :
      (ss : List ExecutionSpace) (w : World E) (p : PointerRecord)
      → IsConsistent E IsLive w
      → w.heap r ≡ some p
      → IsExclusive p
      → (w' : World E) × (p' : PointerRecord) × Round releases r num_bytes w p
          (for_each ss (reallocate_space r new_size num_bytes) w)
          w'
          p'
  unfolding for_each
  loop-Round [] w p c at alone = (w, p, none_done w p c at alone)
  loop-Round (s ∷ ss) w p c at alone =
      let (w', p', first) = reallocate_space-Round w p s c at alone in
      let (w'', p'', rest) = loop-Round ss w' p' first.consistent first.at first.alone in
      (
        w'',
        p'',
        Round-trans (for_each ss (reallocate_space r new_size num_bytes) w') _ first rest
            (ground (arith, first.runs)),
      )
