-- ===== src/Kernel/Programs/Family.antt =====
-- Arrays whose records and blocks are apart from each other, and what keeps them so.
use chai.Umpire.{Env, Pointer, ManagerLaws, RecordPointer, nullptr}
use chai.World.{PointerRecord, World}
use chai.Space.{ExecutionSpace, space_dec}
use chai.Base.{Option, Bool, ◌≢◌, ℕ_discrete, ◌≡◌, ◌∙◌, subst, ap, sym, inl, inr, arith}
use chai.ManagedArray.Handle.{ManagedArray}
use chai.ArrayManager.Move.Settled.{Framed, Coherent, IsCoherent}
use chai.Kernel.Programs.{replace_at}

-- No space of the one record has a pointer that a space of the other has.
abbrev pub Apart : PointerRecord → PointerRecord → Type 0
Apart p q = (s t : ExecutionSpace) → p.pointers s ≢ nullptr → p.pointers s ≢ q.pointers t

module _ {E : Env} {Block : Type 0} {contents : E.Manager → Pointer → Block}
    {IsLive : E.Manager → Pointer → Type 0} (laws : ManagerLaws E Block contents IsLive) where
  -- Each array is in a coherent state with its value.
  pub record Family {I : Type 0} (heap : RecordPointer → Option PointerRecord) (u : E.Manager)
      (locked : Bool) (m : E.Map) (arrays : I → ManagedArray) (records : I → PointerRecord)
      (values : I → Block) : Type 0 where
    pub each :
        (n : I) → Coherent laws heap u locked m (arrays n).pointer_record (records n) (values n)
    pub apart_records : (n k : I) → n ≢ k → (arrays n).pointer_record ≢ (arrays k).pointer_record
    pub apart : (n k : I) → n ≢ k → Apart (records n) (records k)

  abbrev pub IsFamily :
      {I : Type 0} → World E → (I → ManagedArray) → (I → PointerRecord) → (I → Block) → Type 0
  IsFamily w = Family w.heap w.umpire w.locked w.pointer_map

  -- A move of another array keeps an array coherent.
  module _ (w w' : World E) {r o : RecordPointer} {p p' q : PointerRecord} {v v' : Block}
      (space : ExecutionSpace) (f : Framed laws w r p space w' p')
      (moved : IsCoherent laws w' r p' v') (c : IsCoherent laws w o q v) (other : o ≢ r)
      (apart : Apart q p) where
    -- The block that the move writes is none of the other array's.
    pub not_written :
        (s : ExecutionSpace) → q.pointers s ≢ nullptr → q.pointers s ≢ p'.pointers space
    not_written s here same = elim (ℕ_discrete (p.pointers space) nullptr) [
      | yes gone ↦ f.new gone (subst (IsLive w.umpire) same (c.live s here))
      | no had ↦ apart s space here (same ∙ f.same had)
    ]

    pub kept_block :
        (s : ExecutionSpace)
        → q.pointers s ≢ nullptr
        → IsLive w'.umpire (q.pointers s)
          × (contents w'.umpire (q.pointers s) ≡ contents w.umpire (q.pointers s))
    kept_block s here = f.kept (q.pointers s) (c.live s here) (not_written s here)

    pub other-Coherent : IsCoherent laws w' o q v
    other-Coherent = record {
      real = c.real;
      own = c.own;
      at = f.others o other ∙ c.at;
      in_use = c.in_use;
      here = c.here;
      live = λ s h. (kept_block s h).0;
      unlocked = moved.unlocked;
      map_live = moved.map_live;
      holds = elim c.holds [
        | inl (t, e) ↦ inl (t, (kept_block q.last_space c.here).1 ∙ e)
        | inr (t, all) ↦
            inr (t, λ s used. ((all s used).0, (kept_block s (all s used).0).1 ∙ (all s used).1))
      ];
    }

    -- The two stay apart.
    pub other-Apart : Apart q p'
    other-Apart s t here same = elim (space_dec t space) [
      | yes there ↦ not_written s here (same ∙ ap p'.pointers there)
      | no elsewhere ↦ apart s t here (same ∙ f.elsewhere t elsewhere)
    ]

    pub Apart-other : Apart p q → Apart p' q
    Apart-other back s t here same = elim (space_dec s space) [
      | yes there ↦ not_written t (λ n. here (same ∙ n)) (sym same ∙ ap p'.pointers there)
      | no elsewhere ↦
          back s t (λ n. here (f.elsewhere s elsewhere ∙ n)) (sym (f.elsewhere s elsewhere) ∙ same)
    ]

module _ {ℓ} {I : Type 0} {A : Type ℓ} (same_dec : Discrete I) (f : I → A) (k : I) (x : A) where
  pub replace_at-here : replace_at same_dec f k x k ≡ x
  replace_at-here = ground arith

  pub replace_at-other : (n : I) → n ≢ k → replace_at same_dec f k x n ≡ f n
  replace_at-other n other = ground arith

module _ {E : Env} {Block : Type 0} {contents : E.Manager → Pointer → Block}
    {IsLive : E.Manager → Pointer → Type 0} (laws : ManagerLaws E Block contents IsLive)
    {I : Type 0} (same_dec : Discrete I) (arrays : I → ManagedArray) {records : I → PointerRecord}
    {values : I → Block} (w : World E) (a : IsFamily laws w arrays records values) (k : I) where
  -- A capture of one array of a family.
  module _ (w' : World E) {p' : PointerRecord} (space : ExecutionSpace)
      (f : Framed laws w (arrays k).pointer_record (records k) space w' p')
      (moved : IsCoherent laws w' (arrays k).pointer_record p' (values k)) where
    captured-each :
        (n : I)
        → IsCoherent laws w'
            (arrays n).pointer_record
            (replace_at same_dec records k p' n)
            (values n)
    captured-each n = elim (same_dec n k) [
      | yes same ↦ rw same (rw (replace_at-here same_dec records k p') moved)
      | no other ↦ rw (replace_at-other same_dec records k p' n other) (
          other-Coherent laws w w' space f moved (a.each n) (a.apart_records n k other)
            (a.apart n k other))
    ]

    captured-Apart :
        (n m : I)
        → n ≢ m
        → Apart (replace_at same_dec records k p' n) (replace_at same_dec records k p' m)
    captured-Apart n m other = elim (same_dec n k) [
      | yes first ↦
          let apart : m ≢ k = λ e. other (first ∙ sym e) in
          rw
            (
              first,
              replace_at-here same_dec records k p',
              replace_at-other same_dec records k p' m apart,
            )
            (Apart-other laws w w' space f moved (a.each m) (a.apart_records m k apart)
              (a.apart m k apart) (a.apart k m (λ e. apart (sym e))))
      | no second ↦ elim (same_dec m k) [
        | yes same ↦
            rw
              (
                same,
                replace_at-here same_dec records k p',
                replace_at-other same_dec records k p' n second,
              )
              (other-Apart laws w w' space f moved (a.each n) (a.apart_records n k second)
                (a.apart n k second))
        | no third ↦
            rw
              (
                replace_at-other same_dec records k p' n second,
                replace_at-other same_dec records k p' m third,
              )
              (a.apart n m other)
      ]
    ]

    pub captured-Family : IsFamily laws w' arrays (replace_at same_dec records k p') values
    captured-Family = record {
      each = captured-each;
      apart_records = a.apart_records;
      apart = captured-Apart;
    }
