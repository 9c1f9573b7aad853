-- ===== src/ArrayManager/Consistent/Reallocated.antt =====
-- ArrayManager::reallocate of an array with memory in any of the spaces.
use chai.Base.{
  ◌<◌, ℕ, ◌≡◌, ◌≢◌, some, ◌*◌, ◌%◌, size_mod, Bool-cases, true, inr, arith, inl, min, refl, false,
}
use chai.Umpire.{Env, Pointer, RecordPointer, nullptr, ManagerLaws, ReleaseLaws, MapLaws}
use chai.ArrayManager.Reallocate.{reallocate, space_of, all_owned}
use chai.ArrayManager.Reallocate.Announced.{announced}
use chai.ArrayManager.Consistent.Exchanged.{IsOther, Unchanged}
use chai.ArrayManager.Consistent.Reallocates.{loop-Round}
use chai.World.{null_record, World, PointerRecord, done, put_record}
use chai.ArrayManager.Consistent.{IsConsistent, real_of, written-Consistent}
use chai.ArrayManager.Consistent.Dropped.{IsExclusive}
use chai.Space.{spaces, ExecutionSpace}

module _ {E : Env} {Block : Type 0} {contents : E.Manager → Pointer → Block}
    {IsLive : E.Manager → Pointer → Type 0} (laws : ManagerLaws E Block contents IsLive)
    (releases : ReleaseLaws E IsLive) (map : MapLaws E) {r : RecordPointer} (own : r ≢ null_record)
    (sizeof_t elems : ℕ) (pointer : Pointer) where
  abbrev new_size : ℕ
  new_size = sizeof_t * elems % size_mod

  -- What a reallocation returns, and the record that it leaves.
  pub record Outcome (w w' : World E) (p p' : PointerRecord) (q : Pointer) : Type 0 where
    pub runs : reallocate sizeof_t pointer elems r w ≡ done q w'
    pub consistent : IsConsistent E IsLive w'
    pub at : w'.heap r ≡ some p'
    pub alone : IsExclusive p'
    pub result : q ≡ p'.pointers (space_of (spaces E.config) p.pointers pointer)
    pub foreign : all_owned (spaces E.config) p.owned ≡ false → w' ≡ w
    pub size : all_owned (spaces E.config) p.owned ≡ true → p'.size ≡ new_size
    pub empty : (s : ExecutionSpace) → p.pointers s ≡ nullptr → p'.pointers s ≡ nullptr
    pub full : (s : ExecutionSpace) → p.pointers s ≢ nullptr → p'.pointers s ≢ nullptr
    pub copied :
        (s : ExecutionSpace) (i : ℕ)
        → p.pointers s ≢ nullptr
        → i < min p.size new_size
        → releases.byte w'.umpire (p'.pointers s) i ≡ releases.byte w.umpire (p.pointers s) i
    pub others : (q : Pointer) → IsOther releases w p q → Unchanged releases w w' q

  -- Reallocating an array that has memory in any number of spaces, none of which share it, always
  -- returns: the pointer that the record then has in the space of the given one, or in the CPU's. Where
  -- the record owns its memory in every space, it has the new size, and memory in just the spaces
  -- where it had some; otherwise nothing changes. In each of these spaces the bytes up to the smaller
  -- of the two sizes are as before, and every other live block keeps its bytes. No two spaces share
  -- memory, and the world is consistent as before. The record is live and not the null record, and the resource manager and
  -- the map meet their laws.
  pub reallocate-Outcome :
      (w : World E) (p : PointerRecord)
      → IsConsistent E IsLive w
      → w.heap r ≡ some p
      → IsExclusive p
      → (w' : World E) × (p' : PointerRecord) × (q : Pointer) × Outcome w w' p p' q
  unfolding reallocate
  reallocate-Outcome w p c at alone = elim (Bool-cases (all_owned (spaces E.config) p.owned)) [
    | inr foreign ↦ (
      w,
      p,
      p.pointers (space_of (spaces E.config) p.pointers pointer),
      record {
        runs = ground (arith, foreign);
        consistent = c;
        at = at;
        alone = alone;
        result = refl;
        foreign = λ h. refl;
        size = λ h. cc;
        empty = λ s h. h;
        full = λ s h. h;
        copied = λ s i h l. refl;
        others = λ q o i. refl;
      },
    )
    | inl owned ↦
        let (es, told) = announced (spaces E.config) w (real_of c at) at in
        let sized : PointerRecord = record p { size = new_size } in
        let w2 : World E = put_record r (some sized) (record w { events = es }) in
        let (w', p', rounds) =
          loop-Round laws releases map own new_size (min p.size new_size) (spaces E.config) w2 sized
            (written-Consistent c w2.heap {r = r} p sized at (λ s. refl) (λ q. ground arith)
              (λ q l. l))
            (ground arith) alone in
        (
          w',
          p',
          p'.pointers (space_of (spaces E.config) p.pointers pointer),
          record {
            runs = ground (arith, owned, told, rounds.runs, rounds.at);
            consistent = rounds.consistent;
            at = rounds.at;
            alone = rounds.alone;
            result = refl;
            foreign = λ h. cc;
            size = λ h. rounds.size;
            empty = rounds.empty;
            full = rounds.full;
            copied = rounds.copied;
            others = λ q o. (rounds.others q (record { live = o.live; distinct = o.distinct })).1;
          },
        )
  ]
