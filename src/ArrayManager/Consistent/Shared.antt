-- ===== src/ArrayManager/Consistent/Shared.antt =====
-- What keeps the invariant of the ArrayManager: further spaces share a block that the record has.
use chai.Base.{
  ◌≡◌, ◌≢◌, some, if◌then◌else◌, ◌==◌, ◌⊎◌, Option, Bool, ℕ_discrete, arith, ap, sym, inl, ◌∙◌, inr,
}
use chai.Umpire.{Env, Pointer, RecordPointer, nullptr}
use chai.ArrayManager.Consistent.{Consistent, Holds, real_of, used_of}
use chai.World.{PointerRecord, null_record}
use chai.Space.{ExecutionSpace, spaces}
use chai.Space.Facts.{Visited}

module _ {E : Env} {IsLive : E.Manager → Pointer → Type 0}
    {heap : RecordPointer → Option PointerRecord} {next : RecordPointer} {locked : Bool} {m : E.Map}
    {u : E.Manager} (c : Consistent E IsLive heap next locked m u)
    (heap' : RecordPointer → Option PointerRecord) {r : RecordPointer} (p p' : PointerRecord)
    (space : ExecutionSpace) (at : heap r ≡ some p) (own : r ≢ null_record)
    (here : p.pointers space ≢ nullptr)
    (kept : (s : ExecutionSpace) → p.pointers s ≢ nullptr → p'.pointers s ≡ p.pointers s)
    (added : (s : ExecutionSpace)
      → (p'.pointers s ≡ p.pointers s)
        ⊎ ((p'.pointers s ≡ p.pointers space) × Visited s (spaces E.config)))
    (written : (q : RecordPointer) → heap' q ≡ (if q == r then some p' else heap q)) where
  shared-Holds : (q : Pointer) (o : RecordPointer) → Holds heap q o → Holds heap' q o
  shared-Holds q o h = elim (ℕ_discrete o r) [
    | yes e ↦
        let mine : h.object ≡ p = cc (h.at, at, ap heap e) in
        let old : p.pointers h.space ≡ q = sym (ap (λ y. y.pointers h.space) mine) ∙ h.pointer in
        record {
          object = p';
          space = h.space;
          at = ground (arith, written o);
          pointer = kept h.space (λ n. h.real (sym old ∙ n)) ∙ old;
          real = h.real;
        }
    | no ne ↦ record {
      object = h.object;
      space = h.space;
      at = ground (arith, written o, h.at);
      pointer = h.pointer;
      real = h.real;
    }
  ]

  shared-listed :
      (o : RecordPointer) (y : PointerRecord) (s : ExecutionSpace)
      → heap' o ≡ some y
      → y.pointers s ≢ nullptr
      → (E.find (y.pointers s) m ≡ some o) × Visited s (spaces E.config)
  shared-listed o y s there full = elim (ℕ_discrete o r) [
    | no ne ↦ c.listed o y s (ground (arith, written o)) full
    | yes e ↦
        let mine : y ≡ p' = ground (arith, written o) in
        let pointer : y.pointers s ≡ p'.pointers s = ap (λ z. z.pointers s) mine in
        elim (added s) [
          | inl same ↦
              let old : y.pointers s ≡ p.pointers s = pointer ∙ same in
              let entry = c.listed r p s at (λ n. full (old ∙ n)) in
              (ap (λ z. E.find z m) old ∙ entry.0 ∙ ap some (sym e), entry.1)
          | inr (new, visited) ↦
              let entry = c.listed r p space at here in
              (ap (λ z. E.find z m) (pointer ∙ new) ∙ entry.0 ∙ ap some (sym e), visited)
        ]
  ]

  pub shared-Consistent : Consistent E IsLive heap' next locked m u
  shared-Consistent = record {
    unlocked = c.unlocked;
    spare = c.spare;
    unused = λ o l. ground (arith, written o, c.unused o l, used_of c at);
    no_object = ground (arith, written nullptr, c.no_object, real_of c at);
    empty = c.empty;
    empty_at = ground (arith, written null_record, c.empty_at);
    empty_pointers = c.empty_pointers;
    known = λ q o e. shared-Holds q o (c.known q o e);
    live = c.live;
    listed = shared-listed;
  }
