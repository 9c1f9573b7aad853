-- ===== src/ArrayManager/Move/Follow.antt =====
-- ArrayManager::move followed by registerTouch, as a ManagedArray of a non-const type does.
use chai.Umpire.{Env, ManagerLaws, MapLaws, Pointer, RecordPointer, nullptr}
use chai.World.{World, PointerRecord, ◌>>◌, put_record, done, captured}
use chai.Space.{ExecutionSpace, fill, spaces, space_dec}
use chai.ArrayManager.Move.{move_record, done, captured, migrate, false, space_dec}
use chai.ArrayManager.Move.Coherence.{
  IsReady, Latest, Kept, marked, Ensured, move_record-same, IsMovable, register_touch_lem,
  after_finish-live, move_record-migrate, after_finish-IsReady, ensured, after_finish-Kept,
  after_finish-value,
}
use chai.ArrayManager.Touch.{register_touch}
use chai.Base.{◌≡◌, ◌≢◌, some, arith, false, ap, refl, subst, ◌∙◌, sym, if◌then◌else◌, ◌==◌}
use chai.ArrayManager.Callbacks.Log.{notified}
use chai.ArrayManager.Move.Effect.{after_finish, finish_move_lem, update_self}

module _ {E : Env} {Block : Type 0} {contents : E.Manager → Pointer → Block}
    {IsLive : E.Manager → Pointer → Type 0} (laws : ManagerLaws E Block contents IsLive) where
  -- The world and the record between the move and the touch.
  pub record Between (w : World E) (r : RecordPointer) (p : PointerRecord) (space : ExecutionSpace)
      (v : Block) (w' : World E) (p' : PointerRecord) : Type 0 where
    pub world : World E
    pub object : PointerRecord
    pub moves : move_record r space w ≡ done tt world
    pub at : world.heap r ≡ some object
    pub pointer : object.pointers space ≡ p'.pointers space
    pub value : contents world.umpire (object.pointers space) ≡ v
    pub same_space : object.last_space ≡ p.last_space
    pub touches : register_touch r space world ≡ done tt w'

  -- The value is in the space, which is where the record was last touched; the other records and
  -- the blocks that were live are as before, but for the space's own block.
  pub record Followed (w : World E) (r : RecordPointer) (p : PointerRecord) (space : ExecutionSpace)
      (v : Block) (w' : World E) (p' : PointerRecord) : Type 0 where
    pub runs : (move_record r space >> register_touch r space) w ≡ done tt w'
    pub between : Between w r p space v w' p'
    pub ready : IsReady laws w'
    pub latest : Latest laws w' r p' v
    pub last_space : p'.last_space ≡ space
    pub others : (q : RecordPointer) → q ≢ r → w'.heap q ≡ w.heap q
    pub kept :
        (q : Pointer) → IsLive w.umpire q → q ≢ p'.pointers space → Kept laws w.umpire w'.umpire q

  module _ {w : World E} {r : RecordPointer} {p : PointerRecord} {v : Block}
      (space : ExecutionSpace) (ready : IsReady laws w) (latest : Latest laws w r p v)
      (spaced : space ≢ ExecutionSpace.none) where
    Followed-same :
        space ≡ p.last_space
        → Followed w r p space v
            (put_record r (some (marked p space)) (notified w r p captured space))
            (marked p space)
    Followed-same same = record {
      runs = ground (
        arith,
        move_record-same w r p space latest.real latest.at spaced same,
        register_touch_lem (notified w r p captured space) r p space latest.real latest.own
            latest.at spaced,
      );
      between = record {
        world = notified w r p captured space;
        object = p;
        moves = move_record-same w r p space latest.real latest.at spaced same;
        at = latest.at;
        pointer = refl;
        value = rw same latest.value;
        same_space = refl;
        touches =
            register_touch_lem (notified w r p captured space) r p space latest.real latest.own
              latest.at spaced;
      };
      ready = record { unlocked = ready.unlocked; map_live = ready.map_live };
      latest = record {
        real = latest.real;
        own = latest.own;
        at = ground arith;
        spaced = spaced;
        touched = ground arith;
        here = rw same latest.here;
        value = rw same latest.value;
        live = latest.live;
      };
      last_space = refl;
      others = λ q h. ground arith;
      kept = λ q l h. (l, refl);
    }

    module _ {dst : Pointer} {w' : World E} {p' : PointerRecord}
        (e : Ensured laws (notified w r p captured space) r p space dst w' p') where
      abbrev pub last : World E
      last = after_finish w' r p' space dst (p.pointers p.last_space)

      abbrev pub reset : PointerRecord
      reset = record p' { touched = fill (spaces E.config) false p'.touched }

      pub migrate_lem : migrate r space (notified w r p captured space) ≡ done tt last
      unfolding migrate
      migrate_lem = ground (
        arith,
        latest,
        e.runs,
        e.heap r,
        finish_move_lem w' r p' space dst (p.pointers p.last_space) latest.real latest.own
            (ground (arith, e.heap r)) (laws.live_real dst w'.umpire e.dst_live) latest.here,
      )

      abbrev end : World E
      end = put_record r (some (marked reset space)) last

      pub last-heap : (q : RecordPointer) → last.heap q ≡ (if q == r then some reset else w.heap q)
      unfolding after_finish
      last-heap q = ground (arith, e.heap q)

      pub end-value : contents end.umpire (p'.pointers space) ≡ v
      end-value =
          ap (contents end.umpire) (e.pointers space ∙ update_self p.pointers space dst)
          ∙ after_finish-value laws w' r p' space dst (p.pointers p.last_space)
          ∙ (e.kept _ (latest.live p.last_space latest.here)).1
          ∙ latest.value

      pub end-live :
          (s : ExecutionSpace) → p'.pointers s ≢ nullptr → IsLive end.umpire (p'.pointers s)
      end-live s here =
          after_finish-live laws w' r p' space dst (p.pointers p.last_space) _
            (elim (space_dec space s) [
              | yes same ↦ subst (IsLive w'.umpire) (ground (arith, e.pointers s)) e.dst_live
              | no other ↦
                  let old : p'.pointers s ≡ p.pointers s = ground (arith, e.pointers s) in
                  subst (IsLive w'.umpire) (sym old)
                    (e.kept _ (latest.live s (λ n. here (old ∙ n)))).0
            ])

      Followed-migrated :
          space ≢ p.last_space
          → IsMovable E.config p
          → Followed w r p space v end (marked reset space)
      Followed-migrated other movable = record {
        runs = ground (
          arith,
          move_record-migrate w r p space latest.real latest.at spaced other movable,
          migrate_lem,
          register_touch_lem last r reset space latest.real latest.own (ground (arith, last-heap r))
              spaced,
        );
        between = record {
          world = last;
          object = reset;
          moves =
              move_record-migrate w r p space latest.real latest.at spaced other movable
              ∙ migrate_lem;
          at = ground (arith, last-heap r);
          pointer = refl;
          value = end-value;
          same_space = e.last_space;
          touches =
              register_touch_lem last r reset space latest.real latest.own
                (ground (arith, last-heap r)) spaced;
        };
        ready =
            let done_ready =
              after_finish-IsReady laws w' r p' space dst (p.pointers p.last_space) e.ready in
            record { unlocked = done_ready.unlocked; map_live = done_ready.map_live };
        latest = record {
          real = latest.real;
          own = latest.own;
          at = ground arith;
          spaced = spaced;
          touched = ground arith;
          here = ground (arith, e.pointers space, e.dst_real);
          value = end-value;
          live = end-live;
        };
        last_space = refl;
        others = λ q h. ground (arith, last-heap q);
        kept = λ q l h.
            let before = e.kept q l in
            let after =
              after_finish-Kept laws w' r p' space dst (p.pointers p.last_space) q before.0
                (λ same. h (same ∙ sym (e.pointers space ∙ update_self p.pointers space dst))) in
            (after.0, after.1 ∙ before.1);
      }

    -- In every build: a move into a space, which is not NONE, followed by a touch there succeeds, and
    -- leaves the value last written in that space, where the record is then last touched; the other
    -- records and the other live blocks are kept. The record has the value where it was last
    -- touched, is neither null nor the null record, its pointers are live, its memory is not in UM or
    -- PINNED of a build with that, the mutex is free, the map holds live pointers only, and the
    -- resource manager and the map meet their laws.
    pub move-register_touch :
        MapLaws E
        → IsMovable E.config p
        → (w' : World E) × (p' : PointerRecord) × Followed w r p space v w' p'
    move-register_touch map movable = elim (space_dec space p.last_space) [
      | yes same ↦ (_, _, Followed-same same)
      | no other ↦
          let (_, _, _, e) =
            ensured laws space map (record { unlocked = ready.unlocked; map_live = ready.map_live })
              (record {
                real = latest.real;
                own = latest.own;
                at = latest.at;
                spaced = latest.spaced;
                touched = latest.touched;
                here = latest.here;
                value = latest.value;
                live = latest.live;
              }) in
          (_, _, Followed-migrated e other movable)
    ]
