-- ===== src/ArrayManager/Consistent.antt =====
-- The invariant of the ArrayManager: its map, its records and the resource manager agree. The lemmas
-- are about the parts of a world that the invariant reads.
pub mod Dropped
pub mod Ends
pub mod Exchanged
pub mod Makes
pub mod Moves
pub mod Placed
pub mod Reallocates
pub mod Reallocated
pub mod Removed
pub mod Shared
pub mod Singles
use chai.Base.{
  ◌≡◌, ◌≢◌, ◌<◌, ◌≤◌, ◌+◌, Bool, true, false, Option, none, some, if◌then◌else◌, ◌==◌, arith,
  ℕ_discrete, sym, ap, ◌∙◌, subst, ◌⊎◌, inl, inr, refl, ℕ,
}
use chai.Space.{ExecutionSpace, spaces, space_dec, update}
use chai.Space.Facts.{Visited}
use chai.Umpire.{Env, Pointer, RecordPointer, nullptr, MapLaws}
use chai.World.{PointerRecord, World, null_record}

-- The object at `r` has the pointer in some space.
pub record Holds (heap : RecordPointer → Option PointerRecord) (q : Pointer) (r : RecordPointer)
    : Type 0 where
  pub object : PointerRecord
  pub space : ExecutionSpace
  pub at : heap r ≡ some object
  pub pointer : object.pointers space ≡ q
  pub real : q ≢ nullptr

module _ (E : Env) (IsLive : E.Manager → Pointer → Type 0) where
  pub record Consistent (heap : RecordPointer → Option PointerRecord) (next : RecordPointer)
      (locked : Bool) (m : E.Map) (u : E.Manager) : Type 0 where
    pub unlocked : locked ≡ false
    pub spare : null_record < next
    pub unused : (r : RecordPointer) → next ≤ r → heap r ≡ none
    pub no_object : heap nullptr ≡ none
    pub empty : PointerRecord
    pub empty_at : heap null_record ≡ some empty
    pub empty_pointers : (s : ExecutionSpace) → empty.pointers s ≡ nullptr
    -- The map names live records that have the pointer, and live memory.
    pub known : (q : Pointer) (r : RecordPointer) → E.find q m ≡ some r → Holds heap q r
    pub live : (q : Pointer) (r : RecordPointer) → E.find q m ≡ some r → IsLive u q
    -- Each pointer of a record is in the map, for that record, and of a space of the build.
    pub listed :
        (r : RecordPointer) (p : PointerRecord) (s : ExecutionSpace)
        → heap r ≡ some p
        → p.pointers s ≢ nullptr
        → (E.find (p.pointers s) m ≡ some r) × Visited s (spaces E.config)

  abbrev pub IsConsistent : World E → Type 0
  IsConsistent w = Consistent w.heap w.next_record w.locked w.pointer_map w.umpire

-- A world has the parts.
pub world-IsConsistent :
    {E : Env} {IsLive : E.Manager → Pointer → Type 0} {next : RecordPointer} (w : World E)
    → w.next_record ≡ next
    → w.locked ≡ false
    → Consistent E IsLive w.heap next false w.pointer_map w.umpire
    → IsConsistent E IsLive w
world-IsConsistent w e l c = record {
  unlocked = l;
  spare = rw e c.spare;
  unused = rw e c.unused;
  no_object = c.no_object;
  empty = c.empty;
  empty_at = c.empty_at;
  empty_pointers = c.empty_pointers;
  known = c.known;
  live = c.live;
  listed = c.listed;
}

module _ {E : Env} {IsLive : E.Manager → Pointer → Type 0}
    {heap : RecordPointer → Option PointerRecord} {next : RecordPointer} {locked : Bool} {m : E.Map}
    {u : E.Manager} (c : Consistent E IsLive heap next locked m u) where
  pub real_of : {r : RecordPointer} {p : PointerRecord} → heap r ≡ some p → r ≢ nullptr
  real_of at e = cc (c.no_object, ap heap e)

  pub used_of : {r : RecordPointer} {p : PointerRecord} → heap r ≡ some p → r < next
  used_of {r} at = ground (arith, c.unused r)

  -- A record that keeps its pointers is written.
  module _ (heap' : RecordPointer → Option PointerRecord) {r : RecordPointer} (p p' : PointerRecord)
      {u' : E.Manager} (at : heap r ≡ some p)
      (same : (s : ExecutionSpace) → p'.pointers s ≡ p.pointers s)
      (written : (q : RecordPointer) → heap' q ≡ (if q == r then some p' else heap q))
      (kept : (q : Pointer) → IsLive u q → IsLive u' q) where
    written-Holds : (q : Pointer) (o : RecordPointer) → Holds heap q o → Holds heap' q o
    written-Holds q o h = elim (ℕ_discrete o r) [
      | yes e ↦ record {
        object = p';
        space = h.space;
        at = ground (arith, written o);
        pointer = ground (arith, same h.space, h.at, h.pointer, ap heap e);
        real = h.real;
      }
      | no ne ↦ record {
        object = h.object;
        space = h.space;
        at = ground (arith, written o, h.at);
        pointer = h.pointer;
        real = h.real;
      }
    ]

    written-listed :
        (o : RecordPointer) (x : PointerRecord) (s : ExecutionSpace)
        → heap' o ≡ some x
        → x.pointers s ≢ nullptr
        → (E.find (x.pointers s) m ≡ some o) × Visited s (spaces E.config)
    written-listed o x s there here = elim (ℕ_discrete o r) [
      | yes e ↦
          let mine : x ≡ p' = ground (arith, written o) in
          let pointer : x.pointers s ≡ p.pointers s = ap (λ y. y.pointers s) mine ∙ same s in
          let old = c.listed r p s at (λ n. here (pointer ∙ n)) in
          (ground (arith, old.0, pointer), old.1)
      | no ne ↦ c.listed o x s (ground (arith, written o)) here
    ]

    pub written-Consistent : Consistent E IsLive heap' next locked m u'
    written-Consistent = record {
      unlocked = c.unlocked;
      spare = c.spare;
      unused = λ o l. ground (arith, written o, c.unused o l, used_of at);
      no_object = ground (arith, written nullptr, c.no_object, real_of at);
      empty = if null_record == r then p' else c.empty;
      empty_at = ground (arith, written null_record, c.empty_at);
      empty_pointers = λ s. ground (arith, same s, c.empty_at, c.empty_pointers s, at);
      known = λ q o e. written-Holds q o (c.known q o e);
      live = λ q o e. kept q (c.live q o e);
      listed = written-listed;
    }
