-- ===== src/ArrayManager/Consistent/Dropped.antt =====
-- What keeps the invariant of the ArrayManager: a record gives up its pointer in one space.
use chai.Base.{
  ◌≡◌, ◌≢◌, some, none, if◌then◌else◌, ◌==◌, Option, Bool, ap, arith, sym, ℕ_discrete, ◌∙◌,
}
use chai.Umpire.{Env, Pointer, RecordPointer, nullptr}
use chai.World.{PointerRecord, null_record}
use chai.Space.{ExecutionSpace, update, spaces, space_dec}
use chai.ArrayManager.Consistent.{Consistent, Holds, used_of, real_of}
use chai.Space.Facts.{Visited}
use chai.ArrayManager.Consistent.Removed.{foreign}

-- No two spaces share memory.
abbrev pub IsExclusive : PointerRecord → Type 0
IsExclusive p =
    (s t : ExecutionSpace) → p.pointers s ≢ nullptr → p.pointers s ≡ p.pointers t → s ≡ t

module _ {E : Env} {IsLive : E.Manager → Pointer → Type 0}
    {heap : RecordPointer → Option PointerRecord} {next : RecordPointer} {locked : Bool} {m : E.Map}
    {u : E.Manager} (c : Consistent E IsLive heap next locked m u)
    (heap' : RecordPointer → Option PointerRecord) {r : RecordPointer} (p p' : PointerRecord)
    (space : ExecutionSpace) {m' : E.Map} {u' : E.Manager} (at : heap r ≡ some p)
    (here : p.pointers space ≢ nullptr) (alone : IsExclusive p)
    (dropped : (s : ExecutionSpace) → p'.pointers s ≡ update p.pointers space nullptr s)
    (written : (q : RecordPointer) → heap' q ≡ (if q == r then some p' else heap q))
    (erased : E.find (p.pointers space) m' ≡ none)
    (others : (q : Pointer) → q ≢ p.pointers space → E.find q m' ≡ E.find q m)
    (kept : (q : Pointer) (o : RecordPointer) → E.find q m' ≡ some o → IsLive u' q) where
  not_dropped : (q : Pointer) (o : RecordPointer) → E.find q m' ≡ some o → q ≢ p.pointers space
  not_dropped q o e same = cc (e, erased, ap (λ z. E.find z m') same)

  dropped-Holds : (q : Pointer) (o : RecordPointer) → E.find q m' ≡ some o → Holds heap' q o
  dropped-Holds q o e =
      let other = not_dropped q o e in
      let h = c.known q o (sym (others q other) ∙ e) in
      elim (ℕ_discrete o r) [
        | yes name ↦
            let mine : h.object ≡ p = cc (h.at, at, ap heap name) in
            let old : p.pointers h.space ≡ q =
              sym (ap (λ y. y.pointers h.space) mine) ∙ h.pointer in
            record {
              object = p';
              space = h.space;
              at = ground (arith, written o);
              pointer = dropped h.space ∙ elim (space_dec space h.space) [
                | yes same ↦ absurd (other (sym old ∙ ap p.pointers (sym same)))
                | no apart ↦ ground arith
              ];
              real = h.real;
            }
        | no ne ↦ record {
          object = h.object;
          space = h.space;
          at = ground (arith, written o, h.at);
          pointer = h.pointer;
          real = h.real;
        }
      ]

  dropped-listed :
      (o : RecordPointer) (y : PointerRecord) (s : ExecutionSpace)
      → heap' o ≡ some y
      → y.pointers s ≢ nullptr
      → (E.find (y.pointers s) m' ≡ some o) × Visited s (spaces E.config)
  dropped-listed o y s there full = elim (ℕ_discrete o r) [
    | yes name ↦
        let mine : y ≡ p' = ground (arith, written o) in
        let pointer : y.pointers s ≡ p'.pointers s = ap (λ z. z.pointers s) mine in
        elim (space_dec space s) [
          | yes same ↦ absurd (full (pointer ∙ dropped s ∙ ground arith))
          | no apart ↦
              let old : y.pointers s ≡ p.pointers s = pointer ∙ dropped s ∙ ground arith in
              let entry = c.listed r p s at (λ n. full (old ∙ n)) in
              let other : p.pointers s ≢ p.pointers space =
                λ e. apart (alone space s here (sym e)) in
              (
                ap (λ z. E.find z m') old
                    ∙ others (p.pointers s) other
                    ∙ entry.0
                    ∙ ap some (sym name),
                entry.1,
              )
        ]
    | no ne ↦
        let entry = c.listed o y s (ground (arith, written o)) full in
        (
          others (y.pointers s) (foreign c p at (y.pointers s) o space entry.0 ne full) ∙ entry.0,
          entry.1,
        )
  ]

  pub dropped-Consistent : Consistent E IsLive heap' next locked m' u'
  dropped-Consistent = record {
    unlocked = c.unlocked;
    spare = c.spare;
    unused = λ o l. ground (arith, written o, c.unused o l, used_of c at);
    no_object = ground (arith, written nullptr, c.no_object, real_of c at);
    empty = c.empty;
    empty_at = ground (arith, written null_record, c.empty_at, c.empty_pointers space, at);
    empty_pointers = c.empty_pointers;
    known = dropped-Holds;
    live = kept;
    listed = dropped-listed;
  }
