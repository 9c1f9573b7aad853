-- ===== src/Runs/Reached.antt =====
-- The worlds that allowed calls reach from a new ArrayManager.
use chai.Base.{◌≡◌, some, arith, subst, refl, none, sym, ◌⊎◌, ◌∙◌, ap, Option-cases, inl, inr}
use chai.Umpire.{Env, Pointer, RecordPointer, ManagerLaws, ReleaseLaws, MapLaws, AllocatorId}
use chai.Runs.{Request, perform, Allowed, Reaches, here, next}
use chai.Runs.Steps.{perform-Returns}
use chai.ArrayManager.Start.{construct, AllocatorName}
use chai.World.{World, done, new_record, PointerRecord, null_record}
use chai.ArrayManager.Consistent.{IsConsistent, Holds}
use chai.ArrayManager.Query.{get_pointer_record}

module _ {E : Env} (IsLive : E.Manager → Pointer → Type 0) (map : MapLaws E) where
  no_entry : (q : Pointer) {r : RecordPointer} → ¬ (E.find q E.clear ≡ some r)
  no_entry q e = cc (map.find_clear q, e)

  pub construct-IsConsistent :
      (get_allocator : AllocatorName → AllocatorId) (u : E.Manager)
      → IsConsistent E IsLive (construct E get_allocator u)
  unfolding construct
  construct-IsConsistent get_allocator u = record {
    unlocked = refl;
    spare = omega arith;
    unused = λ r l. ground arith;
    no_object = refl;
    empty = new_record;
    empty_at = refl;
    empty_pointers = λ s. refl;
    known = λ q r e. absurd (no_entry q e);
    live = λ q r e. absurd (no_entry q e);
    listed = λ r p s at full. absurd (full (ground arith));
  }

-- A pointer that the map does not know is no record's.
unlisted :
    {E : Env} (IsLive : E.Manager → Pointer → Type 0) (w : World E) (c : IsConsistent E IsLive w)
    (q : Pointer) (o : RecordPointer)
    → E.find q w.pointer_map ≡ none
    → ¬ (Holds w.heap q o)
unlisted {E} IsLive w c q o e h =
    let entry = (c.listed o h.object h.space h.at (λ n. h.real (sym h.pointer ∙ n))).0 in
    cc (entry, e, ap (λ z. E.find z w.pointer_map) h.pointer)

module _ {E : Env} {Block : Type 0} {contents : E.Manager → Pointer → Block}
    {IsLive : E.Manager → Pointer → Type 0} (laws : ManagerLaws E Block contents IsLive)
    (releases : ReleaseLaws E IsLive) (map : MapLaws E)
    (get_allocator : AllocatorName → AllocatorId) (u : E.Manager) where
  -- In every world that allowed calls reach from a new ArrayManager, the map and the records
  -- agree: the map names live records that have the pointer, and live memory; each pointer of a
  -- live record that is not null is in the map for that record; the mutex is free, and the address
  -- of the next record is unused. Allowed calls use live records and spaces of the build, hand
  -- over memory that is not empty, that the map does not know and that is live once it is
  -- registered, and ask for arrays that are not empty; none is an evict, a deep copy of a record
  -- without memory in its last space, a reallocation of memory that spaces share, a free in one
  -- space of memory that the record does not own or that spaces share, or a free of shared PINNED
  -- memory in a build with UM and PINNED. The resource manager and the map meet their laws.
  pub Reaches-IsConsistent :
      {w : World E} → Reaches IsLive (construct E get_allocator u) w → IsConsistent E IsLive w
  Reaches-IsConsistent here = construct-IsConsistent IsLive map get_allocator u
  Reaches-IsConsistent (next {w} {w'} q r a runs) =
      let s = perform-Returns laws releases map w (Reaches-IsConsistent r) q a in
      let same : s.world ≡ w' = ground (arith, s.runs) in
      subst (IsConsistent E IsLive) same s.consistent

  -- In a world that allowed calls reach from a new ArrayManager, each further allowed call
  -- returns: it runs into no null or dangling record, no mutex that is locked already, and no copy
  -- of a whole block from or to a null address. Allowed calls use live records and spaces of the
  -- build, hand over memory that is not empty, that the map does not know and that is live once it
  -- is registered, and ask for arrays that are not empty; none is an evict, a deep copy of a
  -- record without memory in its last space, a reallocation of memory that spaces share, a free in
  -- one space of memory that the record does not own or that spaces share, or a free of shared
  -- PINNED memory in a build with UM and PINNED. The resource manager's own calls, other than such
  -- a copy, are taken to succeed, and it and the map meet their laws.
  pub Reaches-perform :
      {w : World E} (q : Request)
      → Reaches IsLive (construct E get_allocator u) w
      → Allowed IsLive w q
      → (w' : World E) × (perform q w ≡ done tt w')
        × Reaches IsLive (construct E get_allocator u) w'
  Reaches-perform {w} q r a =
      let s = perform-Returns laws releases map w (Reaches-IsConsistent r) q a in
      (s.world, s.runs, next q r a s.runs)

  -- In a world that allowed calls reach from a new ArrayManager, getPointerRecord always returns a
  -- live record and changes nothing: the null record where no record has the pointer, and
  -- otherwise one that has it in some space. Allowed calls use live records and spaces of the
  -- build, hand over memory that is not empty, that the map does not know and that is live once it
  -- is registered, and ask for arrays that are not empty; none is an evict, a deep copy of a
  -- record without memory in its last space, a reallocation of memory that spaces share, a free in
  -- one space of memory that the record does not own or that spaces share, or a free of shared
  -- PINNED memory in a build with UM and PINNED. The resource manager and the map meet their laws.
  pub Reaches-get_pointer_record :
      {w : World E} (q : Pointer)
      → Reaches IsLive (construct E get_allocator u) w
      → (r : RecordPointer) × (p : PointerRecord) × (get_pointer_record q w ≡ done r w)
        × (w.heap r ≡ some p)
        × (Holds w.heap q r ⊎ ((r ≡ null_record) × ((o : RecordPointer) → ¬ (Holds w.heap q o))))
  unfolding get_pointer_record
  Reaches-get_pointer_record {w} q reached =
      let c = Reaches-IsConsistent reached in
      elim (Option-cases (E.find q w.pointer_map)) [
        | inl e ↦ (
          null_record,
          c.empty,
          ground (arith, c.unlocked),
          c.empty_at,
          inr (refl, λ o h. unlisted IsLive w c q o e h),
        )
        | inr (r, e) ↦
            let h = c.known q r e in (r, h.object, ground (arith, c.unlocked), h.at, inl h)
      ]
