-- ===== src/ArrayManager/Consistent/Placed.antt =====
-- What keeps the invariant of the ArrayManager: a new record, and a pointer that a record is given.
use chai.Base.{
  ◌≡◌, ◌≢◌, ◌+◌, Bool, false, Option, none, some, if◌then◌else◌, ◌==◌, arith, ℕ_discrete, sym, ap,
  ◌∙◌, subst, refl,
}
use chai.Space.{ExecutionSpace, spaces, space_dec, update}
use chai.Space.Facts.{Visited}
use chai.Umpire.{Env, Pointer, RecordPointer, nullptr, MapLaws}
use chai.World.{PointerRecord, null_record}
use chai.ArrayManager.Consistent.{Consistent, Holds, real_of, used_of}

module _ {E : Env} {IsLive : E.Manager → Pointer → Type 0}
    {heap : RecordPointer → Option PointerRecord} {next : RecordPointer} {locked : Bool} {m : E.Map}
    {u : E.Manager} (c : Consistent E IsLive heap next locked m u)
    (heap' : RecordPointer → Option PointerRecord) where
  -- A record without pointers is made.
  module _ (p : PointerRecord) (bare : (s : ExecutionSpace) → p.pointers s ≡ nullptr)
      (made : (q : RecordPointer) → heap' q ≡ (if q == next then some p else heap q)) where
    made-Holds : (q : Pointer) (o : RecordPointer) → Holds heap q o → Holds heap' q o
    made-Holds q o h = record {
      object = h.object;
      space = h.space;
      at = ground (arith, made o, h.at, used_of c h.at);
      pointer = h.pointer;
      real = h.real;
    }

    made-listed :
        (o : RecordPointer) (x : PointerRecord) (s : ExecutionSpace)
        → heap' o ≡ some x
        → x.pointers s ≢ nullptr
        → (E.find (x.pointers s) m ≡ some o) × Visited s (spaces E.config)
    made-listed o x s there here = elim (ℕ_discrete o next) [
      | yes e ↦
          let mine : x ≡ p = ground (arith, made o) in
          absurd (here (ap (λ y. y.pointers s) mine ∙ bare s))
      | no ne ↦ c.listed o x s (ground (arith, made o)) here
    ]

    pub made-Consistent : Consistent E IsLive heap' (next + 1) locked m u
    made-Consistent = record {
      unlocked = c.unlocked;
      spare = omega (arith, c.spare);
      unused = λ o l. ground (arith, made o, c.unused o);
      no_object = ground (arith, made nullptr, c.no_object, c.spare);
      empty = c.empty;
      empty_at = ground (arith, made null_record, c.empty_at, c.spare);
      empty_pointers = c.empty_pointers;
      known = λ q o e. made-Holds q o (c.known q o e);
      live = c.live;
      listed = made-listed;
    }

  -- A record is given a pointer in a space where it has none, and the map the entry.
  module _ (map : MapLaws E) {r : RecordPointer} (p p' : PointerRecord) (space : ExecutionSpace)
      (x : Pointer) {m' : E.Map} {u' : E.Manager} (at : heap r ≡ some p) (own : r ≢ null_record)
      (visited : Visited space (spaces E.config)) (gone : p.pointers space ≡ nullptr)
      (real : x ≢ nullptr) (unknown : E.find x m ≡ none)
      (placed : (s : ExecutionSpace) → p'.pointers s ≡ update p.pointers space x s)
      (written : (q : RecordPointer) → heap' q ≡ (if q == r then some p' else heap q))
      (inserted : m' ≡ E.insert x r m)
      (kept : (q : Pointer) (o : RecordPointer) → E.find q m ≡ some o → IsLive u' q)
      (x_live : IsLive u' x) where
    find_new : E.find x m' ≡ some r
    find_new = ap (E.find x) inserted ∙ map.find_insert_fresh x r m unknown

    find_other : (q : Pointer) → q ≢ x → E.find q m' ≡ E.find q m
    find_other q other = ap (E.find q) inserted ∙ map.find_insert_other x q r m other

    place_self : p'.pointers space ≡ x
    place_self = ground (arith, placed space)

    placed-Holds : (q : Pointer) (o : RecordPointer) → Holds heap q o → Holds heap' q o
    placed-Holds q o h = elim (ℕ_discrete o r) [
      | yes e ↦
          let mine : h.object ≡ p = ground (arith, h.at, at, ap heap e) in
          let old : p.pointers h.space ≡ q = sym (ap (λ y. y.pointers h.space) mine) ∙ h.pointer in
          record {
            object = p';
            space = h.space;
            at = ground (arith, written o);
            pointer = placed h.space ∙ elim (space_dec space h.space) [
              | yes same ↦ absurd (h.real (sym old ∙ ap p.pointers (sym same) ∙ gone))
              | no other ↦ ground arith
            ];
            real = h.real;
          }
      | no ne ↦ record {
        object = h.object;
        space = h.space;
        at = ground (arith, written o, h.at);
        pointer = h.pointer;
        real = h.real;
      }
    ]

    placed-known : (q : Pointer) (o : RecordPointer) → E.find q m' ≡ some o → Holds heap' q o
    placed-known q o e = elim (ℕ_discrete q x) [
      | yes same ↦ record {
        object = p';
        space = space;
        at = ground (arith, written o, find_new, ap (λ y. E.find y m') same);
        pointer = place_self ∙ sym same;
        real = λ n. real (sym same ∙ n);
      }
      | no other ↦ placed-Holds q o (c.known q o (sym (find_other q other) ∙ e))
    ]

    -- Other pointers of the map's records are not the new one, which the map does not know.
    keeps_entry :
        (o : RecordPointer) (y : PointerRecord) (s : ExecutionSpace)
        → heap o ≡ some y
        → y.pointers s ≢ nullptr
        → (E.find (y.pointers s) m' ≡ some o) × Visited s (spaces E.config)
    keeps_entry o y s there here =
        let old = c.listed o y s there here in
        (
          find_other (y.pointers s) (λ e. cc (old.0, unknown, ap (λ z. E.find z m) e)) ∙ old.0,
          old.1,
        )

    placed-listed :
        (o : RecordPointer) (y : PointerRecord) (s : ExecutionSpace)
        → heap' o ≡ some y
        → y.pointers s ≢ nullptr
        → (E.find (y.pointers s) m' ≡ some o) × Visited s (spaces E.config)
    placed-listed o y s there here = elim (ℕ_discrete o r) [
      | no ne ↦ keeps_entry o y s (ground (arith, written o)) here
      | yes e ↦
          let mine : y ≡ p' = ground (arith, written o) in
          let pointer : y.pointers s ≡ p'.pointers s = ap (λ z. z.pointers s) mine in
          elim (space_dec space s) [
            | yes same ↦
                let new : y.pointers s ≡ x = pointer ∙ ap p'.pointers (sym same) ∙ place_self in
                (
                  ap (λ z. E.find z m') new ∙ find_new ∙ ap some (sym e),
                  subst (λ t. Visited t (spaces E.config)) same visited,
                )
            | no other ↦
                let old : y.pointers s ≡ p.pointers s = pointer ∙ placed s ∙ ground arith in
                let kept_entry = keeps_entry r p s at (λ n. here (old ∙ n)) in
                (ap (λ z. E.find z m') old ∙ kept_entry.0 ∙ ap some (sym e), kept_entry.1)
          ]
    ]

    placed-live : (q : Pointer) (o : RecordPointer) → E.find q m' ≡ some o → IsLive u' q
    placed-live q o e = elim (ℕ_discrete q x) [
      | yes same ↦ subst (IsLive u') (sym same) x_live
      | no other ↦ kept q o (sym (find_other q other) ∙ e)
    ]

    pub placed-Consistent : Consistent E IsLive heap' next false m' u'
    placed-Consistent = record {
      unlocked = refl;
      spare = c.spare;
      unused = λ o l. ground (arith, written o, c.unused o l, used_of c at);
      no_object = ground (arith, written nullptr, c.no_object, real_of c at);
      empty = c.empty;
      empty_at = ground (arith, written null_record, c.empty_at);
      empty_pointers = c.empty_pointers;
      known = placed-known;
      live = placed-live;
      listed = placed-listed;
    }
