-- ===== src/ArrayManager/Consistent/Removed.antt =====
-- What keeps the invariant of the ArrayManager: the end of a record, and of one of its pointers.
use chai.Base.{
  ◌≡◌, ◌≢◌, Option, none, some, if◌then◌else◌, ◌==◌, arith, sym, ap, ◌∙◌, subst, refl, Bool, inl,
  inr, Option-cases, false,
}
use chai.Space.{ExecutionSpace, spaces}
use chai.Space.Facts.{Visited}
use chai.Umpire.{Env, Pointer, RecordPointer, nullptr, ReleaseLaws}
use chai.Umpire.Released.{Released, Released-live}
use chai.World.{PointerRecord, null_record}
use chai.ArrayManager.Consistent.{Consistent, Holds}
use chai.ArrayManager.Free.Clean.{Owns}

module _ {E : Env} {IsLive : E.Manager → Pointer → Type 0}
    {heap : RecordPointer → Option PointerRecord} {next : RecordPointer} {locked : Bool} {m : E.Map}
    {u : E.Manager} (c : Consistent E IsLive heap next locked m u) {r : RecordPointer}
    (p : PointerRecord) (at : heap r ≡ some p) where
  -- The entries of other records are for pointers that this one has not.
  pub foreign :
      (q : Pointer) (o : RecordPointer) (s : ExecutionSpace)
      → E.find q m ≡ some o
      → o ≢ r
      → q ≢ nullptr
      → q ≢ p.pointers s
  foreign q o s e other real same =
      let name : o ≡ r =
        cc (e, ap (λ z. E.find z m) same, (c.listed r p s at (λ n. real (same ∙ n))).0) in
      other name

  module _ (heap' : RecordPointer → Option PointerRecord) {m' : E.Map} {u' : E.Manager}
      (laws : ReleaseLaws E IsLive) (own : r ≢ null_record)
      (erased : (s : ExecutionSpace) → p.pointers s ≢ nullptr → E.find (p.pointers s) m' ≡ none)
      (still_none : (q : Pointer) → E.find q m ≡ none → E.find q m' ≡ none)
      (others : (q : Pointer)
        → q ≢ nullptr
        → ((s : ExecutionSpace) → q ≢ p.pointers s)
        → E.find q m' ≡ E.find q m)
      (removed : (q : RecordPointer) → heap' q ≡ (if q == r then none else heap q))
      (released : Released E (Owns p) u u') where
    -- An entry that is left was there before, for another record.
    record Survives (q : Pointer) (o : RecordPointer) : Type 0 where
      before : E.find q m ≡ some o
      holds : Holds heap q o
      other : o ≢ r

    not_own : (q : Pointer) (o : RecordPointer) → E.find q m' ≡ some o → E.find q m ≢ some r
    not_own q o e h =
        let k = c.known q r h in
        let mine : p ≡ k.object = cc (k.at, at) in
        let pointer : p.pointers k.space ≡ q = ap (λ z. z.pointers k.space) mine ∙ k.pointer in
        cc (erased k.space (λ n. k.real (sym pointer ∙ n)), ap (λ z. E.find z m') pointer, e)

    survives : (q : Pointer) (o : RecordPointer) → E.find q m' ≡ some o → Survives q o
    survives q o e = elim (Option-cases (E.find q m)) [
      | inl absent ↦ cc (still_none q absent, e)
      | inr (o', there) ↦
          let k = c.known q o' there in
          let other : o' ≢ r = λ h. not_own q o e (there ∙ ap some h) in
          let same : E.find q m' ≡ E.find q m =
            others q k.real (λ s. foreign q o' s there other k.real) in
          let name : o' ≡ o = cc (same, there, e) in
          record {
            before = sym same ∙ e;
            holds = subst (Holds heap q) name k;
            other = λ h. other (name ∙ h);
          }
    ]

    survivor-live : (q : Pointer) (o : RecordPointer) → E.find q m' ≡ some o → IsLive u' q
    survivor-live q o e =
        let x = survives q o e in
        Released-live q laws released
          (λ a owned h. elim owned [
            | inl gone ↦ x.holds.real (h ∙ gone)
            | inr (t, pointer) ↦ foreign q o t x.before x.other x.holds.real (h ∙ pointer)
          ])
          (c.live q o x.before)

    removed-listed :
        (o : RecordPointer) (y : PointerRecord) (s : ExecutionSpace)
        → heap' o ≡ some y
        → y.pointers s ≢ nullptr
        → (E.find (y.pointers s) m' ≡ some o) × Visited s (spaces E.config)
    removed-listed o y s there here =
        let other : o ≢ r = λ e. ground (arith, removed o, e) in
        let old = c.listed o y s (ground (arith, removed o)) here in
        (
          others (y.pointers s) here (λ t. foreign (y.pointers s) o t old.0 other here) ∙ old.0,
          old.1,
        )

    pub removed-Consistent : Consistent E IsLive heap' next false m' u'
    removed-Consistent = record {
      unlocked = refl;
      spare = c.spare;
      unused = λ o l. ground (arith, removed o, c.unused o l);
      no_object = ground (arith, removed nullptr, c.no_object);
      empty = c.empty;
      empty_at = ground (arith, removed null_record, c.empty_at);
      empty_pointers = c.empty_pointers;
      known = λ q o e.
          let x = survives q o e in
          record {
            object = x.holds.object;
            space = x.holds.space;
            at = ground (arith, removed o, x.holds.at, x.other);
            pointer = x.holds.pointer;
            real = x.holds.real;
          };
      live = survivor-live;
      listed = removed-listed;
    }
