-- ===== src/ArrayManager/Move/Coherence.antt =====
-- What the parts of ArrayManager::move keep of the memory, and the invariant of a touched record.
use chai.Base.{
  ◌≡◌, ◌≢◌, inl, inr, refl, sym, ◌∙◌, ap, true, false, none, some, if◌then◌else◌, arith, ◌==◌,
  Bool-cases, Option-cases, ℕ_discrete,
}
use chai.Space.{ExecutionSpace, update, Config}
use chai.Umpire.{Env, ManagerLaws, MapLaws, Pointer, RecordPointer, nullptr}
use chai.World.{PointerRecord, World, done, null_record, put_record, captured}
use chai.ArrayManager.Register.Effect.{told, entered}
use chai.ArrayManager.Move.{ensure_allocated, move_record, um, migrate, pinned, captured}
use chai.ArrayManager.Move.Effect.{
  new_pointer, placed, held, after_allocate, announced, allocate_lem, after_allocate-heap,
  after_allocate-locked, after_allocate-map, after_finish, after_allocate-current,
}
use chai.ArrayManager.Touch.{register_touch}
use chai.ArrayManager.Callbacks.Log.{notified, callback_lem}

module _ {E : Env} {Block : Type 0} {contents : E.Manager → Pointer → Block}
    {IsLive : E.Manager → Pointer → Type 0} (laws : ManagerLaws E Block contents IsLive) where
  -- A block that is live and has its bytes in another state as well.
  abbrev pub Kept : E.Manager → E.Manager → Pointer → Type 0
  Kept u u' q = IsLive u' q × (contents u' q ≡ contents u q)

  pub told-Kept :
      (w : World E) (r : RecordPointer) (p : PointerRecord) (space : ExecutionSpace) (a q : Pointer)
      → IsLive w.umpire q
      → Kept w.umpire (told w r p space a).umpire q
  told-Kept w r p space a q l = elim (Bool-cases (a == nullptr)) [
    | inl e ↦ rw e (l, refl)
    | inr e ↦ rw e (elim (Bool-cases (E.has_allocator a w.umpire)) [
      | inl h ↦ rw h (laws.resize_keeps a p.size w.umpire q l)
      | inr h ↦ rw h (laws.register_keeps a p.size (p.allocators space) w.umpire q l)
    ])
  ]

  module _ (w : World E) (r : RecordPointer) (p : PointerRecord) (space : ExecutionSpace) where
    pub after_allocate-Kept :
        (q : Pointer) → IsLive w.umpire q → Kept w.umpire (after_allocate w r p space).umpire q
    unfolding after_allocate
    after_allocate-Kept q l =
        let new = laws.allocate_keeps (p.allocators space) p.size w.umpire q l in
        let tell =
          told-Kept (entered (announced w r p space) r (placed w r p space) space true) r
            (held w r p space) space ((placed w r p space).pointers space) q new.0 in
        (tell.0, tell.1 ∙ new.1)

    pub after_allocate-live : IsLive (after_allocate w r p space).umpire (new_pointer w r p space)
    unfolding after_allocate
    after_allocate-live =
        (told-Kept (entered (announced w r p space) r (placed w r p space) space true) r
          (held w r p space) space ((placed w r p space).pointers space) _
          (laws.allocate_live (p.allocators space) p.size w.umpire)).0

  -- No thread is inside a locked scope, and the map holds live pointers only.
  pub record IsReady (w : World E) : Type 0 where
    pub unlocked : w.locked ≡ false
    pub map_live :
        (q : Pointer) (r : RecordPointer) → E.find q w.pointer_map ≡ some r → IsLive w.umpire q

  -- `ensure_allocated` yields `dst`, and the record there is `p'`.
  pub record Ensured (w : World E) (r : RecordPointer) (p : PointerRecord) (space : ExecutionSpace)
      (dst : Pointer) (w' : World E) (p' : PointerRecord) : Type 0 where
    pub runs : ensure_allocated r space w ≡ done dst w'
    pub heap : (q : RecordPointer) → w'.heap q ≡ (if q == r then some p' else w.heap q)
    pub pointers : (s : ExecutionSpace) → p'.pointers s ≡ update p.pointers space dst s
    pub touched : p'.touched ≡ p.touched
    pub last_space : p'.last_space ≡ p.last_space
    pub kept : (q : Pointer) → IsLive w.umpire q → Kept w.umpire w'.umpire q
    pub dst_live : IsLive w'.umpire dst
    pub dst_real : dst ≢ nullptr
    pub current : w'.current_execution_space ≡ w.current_execution_space
    pub dst_same : p.pointers space ≢ nullptr → dst ≡ p.pointers space
    pub dst_new : p.pointers space ≡ nullptr → ¬ (IsLive w.umpire dst)
    pub ready : IsReady w'

  module _ (w : World E) (r : RecordPointer) (p : PointerRecord) (space : ExecutionSpace)
      (ready : IsReady w) (real : r ≢ nullptr) (at : w.heap r ≡ some p) where
    -- The space has a pointer.
    pub Ensured-present :
        p.pointers space ≢ nullptr
        → IsLive w.umpire (p.pointers space)
        → Ensured w r p space (p.pointers space) w p
    unfolding ensure_allocated
    Ensured-present here live = record {
      runs = ground arith;
      heap = λ q. ground arith;
      pointers = λ s. ground arith;
      touched = refl;
      last_space = refl;
      kept = λ q l. (l, refl);
      dst_live = live;
      dst_real = here;
      current = refl;
      dst_same = λ h. refl;
      dst_new = λ gone l. absurd (here gone);
      ready = ready;
    }

    pub new_pointer_fresh : E.find (new_pointer w r p space) w.pointer_map ≡ none
    new_pointer_fresh = elim (Option-cases (E.find (new_pointer w r p space) w.pointer_map)) [
      | inl e ↦ e
      | inr (q, e) ↦
          absurd (
            (laws.allocate_new (p.allocators space) p.size w.umpire).1 _ (ready.map_live _ q e)
              refl)
    ]

    pub Ensured-absent :
        p.pointers space ≡ nullptr
        → MapLaws E
        → Ensured w r p space
            (new_pointer w r p space)
            (after_allocate w r p space)
            (held w r p space)
    unfolding ensure_allocated
    Ensured-absent gone map = record {
      runs = ground (
        arith,
        allocate_lem w r p space real at ready.unlocked new_pointer_fresh,
        after_allocate-heap w r p space r,
      );
      heap = after_allocate-heap w r p space;
      pointers = λ s. refl;
      touched = refl;
      last_space = refl;
      kept = after_allocate-Kept w r p space;
      dst_live = after_allocate-live w r p space;
      dst_real = (laws.allocate_new (p.allocators space) p.size w.umpire).0;
      current = after_allocate-current w r p space;
      dst_same = λ here. absurd (here gone);
      dst_new = λ h l. (laws.allocate_new (p.allocators space) p.size w.umpire).1 _ l refl;
      ready = record { unlocked = after_allocate-locked w r p space; map_live = inserted };
    }
      where
        inserted :
            (q : Pointer) (o : RecordPointer)
            → E.find q (after_allocate w r p space).pointer_map ≡ some o
            → IsLive (after_allocate w r p space).umpire q
        inserted q o e = elim (ℕ_discrete q (new_pointer w r p space)) [
          | yes same ↦ rw same (after_allocate-live w r p space)
          | no other ↦
              (after_allocate-Kept w r p space q (
                ready.map_live q o (
                  sym (map.find_insert_other _ q r w.pointer_map other)
                  ∙ sym (ap (E.find q) (after_allocate-map w r p space))
                  ∙ e))).0
        ]

  -- The value last written is in the space where the record was last touched.
  pub record Latest (w : World E) (r : RecordPointer) (p : PointerRecord) (v : Block) : Type 0 where
    pub real : r ≢ nullptr
    pub own : r ≢ null_record
    pub at : w.heap r ≡ some p
    pub spaced : p.last_space ≢ ExecutionSpace.none
    pub touched : p.touched p.last_space ≡ true
    pub here : p.pointers p.last_space ≢ nullptr
    pub value : contents w.umpire (p.pointers p.last_space) ≡ v
    pub live : (s : ExecutionSpace) → p.pointers s ≢ nullptr → IsLive w.umpire (p.pointers s)

  pub ensured :
      {w : World E} {r : RecordPointer} {p : PointerRecord} {v : Block} (space : ExecutionSpace)
      → MapLaws E
      → IsReady w
      → Latest w r p v
      → (dst : Pointer) × (w' : World E) × (p' : PointerRecord) × Ensured w r p space dst w' p'
  ensured {w} {r} {p} space map ready latest = elim (ℕ_discrete (p.pointers space) nullptr) [
    | yes gone ↦ (_, _, _, Ensured-absent w r p space ready latest.real latest.at gone map)
    | no here ↦ (
      _,
      _,
      _,
      Ensured-present w r p space ready latest.real latest.at here (latest.live space here),
    )
  ]

-- The record once the space has been touched.
abbrev pub marked : PointerRecord → ExecutionSpace → PointerRecord
marked p space = record p { touched = update p.touched space true; last_space = space }

pub register_touch_lem :
    {E : Env} (w : World E) (r : RecordPointer) (p : PointerRecord) (space : ExecutionSpace)
    → r ≢ nullptr
    → r ≢ null_record
    → w.heap r ≡ some p
    → space ≢ ExecutionSpace.none
    → register_touch r space w ≡ done tt (put_record r (some (marked p space)) w)
unfolding register_touch
register_touch_lem w r p space real own at spaced = ground arith

-- The early returns for memory that both spaces share do not apply.
pub record IsMovable (c : Config) (p : PointerRecord) : Type 0 where
  pub not_um : c.um ≡ true → p.last_space ≢ um
  pub not_pinned : c.pinned ≡ true → p.last_space ≢ pinned

module _ {E : Env} (w : World E) (r : RecordPointer) (p : PointerRecord) (space : ExecutionSpace)
    (real : r ≢ nullptr) (at : w.heap r ≡ some p) (spaced : space ≢ ExecutionSpace.none) where
  -- A move within a space runs the callback for a capture, and no more.
  pub move_record-same :
      space ≡ p.last_space → move_record r space w ≡ done tt (notified w r p captured space)
  unfolding move_record
  move_record-same same = ground (arith, callback_lem w r p real at captured space)

  pub move_record-migrate :
      space ≢ p.last_space
      → IsMovable E.config p
      → move_record r space w ≡ migrate r space (notified w r p captured space)
  unfolding move_record
  move_record-migrate other movable = ground (arith, callback_lem w r p real at captured space)

module _ {E : Env} {Block : Type 0} {contents : E.Manager → Pointer → Block}
    {IsLive : E.Manager → Pointer → Type 0} (laws : ManagerLaws E Block contents IsLive)
    (w : World E) (r : RecordPointer) (p : PointerRecord) (space : ExecutionSpace)
    (dst src : Pointer) where
  -- The copy makes the two blocks equal, and changes no other.
  pub after_finish-value :
      contents (after_finish w r p space dst src).umpire dst ≡ contents w.umpire src
  unfolding after_finish
  after_finish-value = ground (arith, laws.copy_to dst src w.umpire)

  pub after_finish-live :
      (q : Pointer) → IsLive w.umpire q → IsLive (after_finish w r p space dst src).umpire q
  unfolding after_finish
  after_finish-live q l = ground (arith, laws.copy_live dst src q w.umpire l)

  pub after_finish-Kept :
      (q : Pointer)
      → IsLive w.umpire q
      → q ≢ dst
      → Kept laws w.umpire (after_finish w r p space dst src).umpire q
  unfolding after_finish
  after_finish-Kept q l other =
      ground (arith, laws.copy_live dst src q w.umpire l, laws.copy_keeps dst src q w.umpire other)

  pub after_finish-IsReady : IsReady laws w → IsReady laws (after_finish w r p space dst src)
  unfolding after_finish
  after_finish-IsReady ready = record {
    unlocked = ground (arith, ready.unlocked);
    map_live = λ q o e. after_finish-live q (ready.map_live q o (ground arith));
  }
