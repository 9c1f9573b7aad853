-- ===== src/ArrayManager/Move/Settled.antt =====
-- ArrayManager::move between the CPU and the GPU, from any state that such moves and touches leave:
-- the record is touched where it was last touched, or its blocks agree.
use chai.Space.{ExecutionSpace, fill, Config, spaces, cpu, space_dec, gpu, has_gpu}
use chai.Umpire.{Env, Pointer, ManagerLaws, RecordPointer, nullptr, MapLaws}
use chai.Base.{
  ◌≡◌, ◌≢◌, arith, Bool, true, ◌⊎◌, false, Option, inl, inr, some, ◌∙◌, refl, sym, ℕ_discrete, ap,
  subst,
}
use chai.World.{PointerRecord, World, done, null_record, captured}
use chai.ArrayManager.Move.Coherence.{
  IsMovable, move_record-same, move_record-migrate, IsReady, Latest, Ensured, ensured,
  after_finish-IsReady, after_finish-Kept, Kept,
}
use chai.ArrayManager.Move.{move_record, migrate, ensure_allocated}
use chai.ArrayManager.Callbacks.Log.{notified}
use chai.ArrayManager.Move.Follow.{end-value, migrate_lem, last-heap, end-live}
use chai.ArrayManager.Move.Effect.{update_self, after_finish}

-- The spaces that kernels run in.
abbrev pub InUse : ExecutionSpace → Type 0
InUse s = (s ≡ cpu) ⊎ (s ≡ gpu)

fill-InUse :
    (c : Config) (f : ExecutionSpace → Bool) (s : ExecutionSpace)
    → has_gpu c ≡ true
    → InUse s
    → fill (spaces c) false f s ≡ false
unfolding fill spaces space_dec
fill-InUse c f s g (inl e) = ground arith
fill-InUse c f s g (inr e) = ground arith

two_spaces : {s t u : ExecutionSpace} → InUse s → InUse t → InUse u → s ≢ t → u ≢ s → u ≡ t
two_spaces a b c h k = ground arith

pub spaced-InUse : {s : ExecutionSpace} → InUse s → s ≢ ExecutionSpace.none
spaced-InUse u e = ground arith

not_shared-InUse : (c : Config) (p : PointerRecord) → InUse p.last_space → IsMovable c p
not_shared-InUse c p u = record { not_um = λ h e. ground arith; not_pinned = λ h e. ground arith }

-- The world and the record after a copy from the last space.
abbrev moved :
    {E : Env}
    → World E
    → RecordPointer
    → (before after : PointerRecord) → ExecutionSpace
    → Pointer
    → World E
moved w r p p' space dst = after_finish w r p' space dst (p.pointers p.last_space)

abbrev settled : Env → PointerRecord → PointerRecord
settled E p = record p { touched = fill (spaces E.config) false p.touched }

module _ {E : Env} {Block : Type 0} {contents : E.Manager → Pointer → Block}
    {IsLive : E.Manager → Pointer → Type 0} (laws : ManagerLaws E Block contents IsLive) where
  -- The value is where the record was last touched, and if no touch marks that, in every space.
  abbrev pub Holds : E.Manager → PointerRecord → Block → Type 0
  Holds u p v =
      ((p.touched p.last_space ≡ true) × (contents u (p.pointers p.last_space) ≡ v))
      ⊎ ((p.touched p.last_space ≡ false)
          × ((s : ExecutionSpace)
              → InUse s
              → (p.pointers s ≢ nullptr) × (contents u (p.pointers s) ≡ v)))

  -- The record at `r` is `p`, and its array has the value `v`, in a world with this heap, resource
  -- manager, mutex and map.
  pub record Coherent (heap : RecordPointer → Option PointerRecord) (u : E.Manager) (locked : Bool)
      (m : E.Map) (r : RecordPointer) (p : PointerRecord) (v : Block) : Type 0 where
    pub real : r ≢ nullptr
    pub own : r ≢ null_record
    pub at : heap r ≡ some p
    pub in_use : InUse p.last_space
    pub here : p.pointers p.last_space ≢ nullptr
    pub live : (s : ExecutionSpace) → p.pointers s ≢ nullptr → IsLive u (p.pointers s)
    pub unlocked : locked ≡ false
    pub map_live : (q : Pointer) (o : RecordPointer) → E.find q m ≡ some o → IsLive u q
    pub holds : Holds u p v

  abbrev pub IsCoherent : World E → RecordPointer → PointerRecord → Block → Type 0
  IsCoherent w = Coherent w.heap w.umpire w.locked w.pointer_map

  -- The other records and blocks are kept: the record's pointers are as before, but for a new block in
  -- the space, where it had none.
  pub record Framed (w : World E) (r : RecordPointer) (p : PointerRecord) (space : ExecutionSpace)
      (w' : World E) (p' : PointerRecord) : Type 0 where
    pub current : w'.current_execution_space ≡ w.current_execution_space
    pub others : (q : RecordPointer) → q ≢ r → w'.heap q ≡ w.heap q
    pub kept :
        (q : Pointer) → IsLive w.umpire q → q ≢ p'.pointers space → Kept laws w.umpire w'.umpire q
    pub elsewhere : (s : ExecutionSpace) → s ≢ space → p'.pointers s ≡ p.pointers s
    pub same : p.pointers space ≢ nullptr → p'.pointers space ≡ p.pointers space
    pub new : p.pointers space ≡ nullptr → ¬ (IsLive w.umpire (p'.pointers space))

  -- The world and the record after a move.
  pub record Moved (w : World E) (r : RecordPointer) (p : PointerRecord) (space : ExecutionSpace)
      (v : Block) (w' : World E) (p' : PointerRecord) : Type 0 where
    pub moves : move_record r space w ≡ done tt w'
    pub coherent : IsCoherent w' r p' v
    pub present : p'.pointers space ≢ nullptr
    pub value : contents w'.umpire (p'.pointers space) ≡ v
    pub same_space : p'.last_space ≡ p.last_space
    pub framed : Framed w r p space w' p'

  module _ (w : World E) {r : RecordPointer} {p : PointerRecord} {v : Block}
      (space : ExecutionSpace) (gpus : has_gpu E.config ≡ true) (map : MapLaws E)
      (c : IsCoherent w r p v) (used : InUse space) where
    stays : p.pointers space ≢ nullptr → Framed w r p space (notified w r p captured space) p
    stays here = record {
      current = refl;
      others = λ q h. refl;
      kept = λ q l h. (l, refl);
      elsewhere = λ s h. refl;
      same = λ h. refl;
      new = λ gone l. here gone;
    }

    Moved-same : space ≡ p.last_space → Moved w r p space v (notified w r p captured space) p
    Moved-same same = record {
      moves = move_record-same w r p space c.real c.at (spaced-InUse used) same;
      coherent = c;
      present = rw same c.here;
      value = rw same (elim c.holds [ inl (t, e) ↦ e | inr (t, f) ↦ (f p.last_space c.in_use).1 ]);
      same_space = refl;
      framed = stays (λ n. c.here (ap p.pointers (sym same) ∙ n));
    }

    -- A record that no touch marks: its block in the space is up to date.
    Moved-clean :
        space ≢ p.last_space
        → p.touched p.last_space ≡ false
        → (p.pointers space ≢ nullptr) × (contents w.umpire (p.pointers space) ≡ v)
        → Moved w r p space v (notified w r p captured space) p
    unfolding migrate ensure_allocated
    Moved-clean other clean (present, value) = record {
      moves =
          move_record-migrate w r p space c.real c.at (spaced-InUse used) other
            (not_shared-InUse E.config p c.in_use)
          ∙ ground (arith, c.at);
      coherent = c;
      present = present;
      value = value;
      same_space = refl;
      framed = stays present;
    }

    module _ (touched : p.touched p.last_space ≡ true)
        (value : contents w.umpire (p.pointers p.last_space) ≡ v) where
      ready : IsReady laws w
      ready = record { unlocked = c.unlocked; map_live = c.map_live }

      latest : Latest laws w r p v
      latest = record {
        real = c.real;
        own = c.own;
        at = c.at;
        spaced = spaced-InUse c.in_use;
        touched = touched;
        here = c.here;
        value = value;
        live = c.live;
      }

      module _ {dst : Pointer} {w' : World E} {p' : PointerRecord}
          (e : Ensured laws (notified w r p captured space) r p space dst w' p') where
        moved-current :
            (moved w' r p p' space dst).current_execution_space ≡ w.current_execution_space
        unfolding after_finish
        moved-current = ground (arith, e.current)

        moved-present : (settled E p').pointers space ≢ nullptr
        moved-present = ground (arith, e.pointers space, e.dst_real)

        moved-value :
            contents (moved w' r p p' space dst).umpire ((settled E p').pointers space) ≡ v
        moved-value = end-value laws space ready latest (spaced-InUse used) e

        -- The block that the value was copied from still has it.
        source-value :
            space ≢ p.last_space
            → ((settled E p').pointers p.last_space ≢ nullptr)
              × (contents (moved w' r p p' space dst).umpire ((settled E p').pointers p.last_space)
                  ≡ v)
        source-value other =
            let source : (settled E p').pointers p.last_space ≡ p.pointers p.last_space =
              ground (arith, e.pointers p.last_space) in
            let old = e.kept (p.pointers p.last_space) (c.live p.last_space c.here) in
            (
              λ n. c.here (sym source ∙ n),
              elim (ℕ_discrete ((settled E p').pointers p.last_space)
                  ((settled E p').pointers space)) [
                    | yes same ↦ ap (contents (moved w' r p p' space dst).umpire) same ∙ moved-value
                    | no apart ↦
                        ap (contents (moved w' r p p' space dst).umpire) source
                        ∙ (after_finish-Kept laws w' r p' space dst (p.pointers p.last_space) _
                            old.0
                            (λ same. apart (
                              source
                              ∙ same
                              ∙ sym (e.pointers space ∙ update_self p.pointers space dst)))).1
                        ∙ old.1
                        ∙ value
                  ],
            )

        Moved-copied :
            space ≢ p.last_space → Moved w r p space v (moved w' r p p' space dst) (settled E p')
        Moved-copied other = record {
          moves =
              move_record-migrate w r p space c.real c.at (spaced-InUse used) other
                (not_shared-InUse E.config p c.in_use)
              ∙ migrate_lem laws space ready latest (spaced-InUse used) e;
          coherent =
              let done_ready =
                after_finish-IsReady laws w' r p' space dst (p.pointers p.last_space) e.ready in
              record {
                real = c.real;
                own = c.own;
                at = ground (arith, last-heap laws space ready latest (spaced-InUse used) e r);
                in_use = rw e.last_space c.in_use;
                here = rw e.last_space (source-value other).0;
                live = end-live laws space ready latest (spaced-InUse used) e;
                unlocked = done_ready.unlocked;
                map_live = done_ready.map_live;
                holds = inr (
                  fill-InUse E.config p'.touched p'.last_space gpus (rw e.last_space c.in_use),
                  λ s u. elim (space_dec s space) [
                    | yes same ↦ rw same (moved-present, moved-value)
                    | no apart ↦ rw (two_spaces used c.in_use u other apart) (source-value other)
                  ],
                );
              };
          present = moved-present;
          value = moved-value;
          same_space = e.last_space;
          framed = record {
            current = moved-current;
            others =
                λ q h. ground (arith, last-heap laws space ready latest (spaced-InUse used) e q);
            kept = λ q l h.
                let before = e.kept q l in
                let after =
                  after_finish-Kept laws w' r p' space dst (p.pointers p.last_space) q before.0
                    (λ same.
                      h (same ∙ sym (e.pointers space ∙ update_self p.pointers space dst))) in
                (after.0, after.1 ∙ before.1);
            elsewhere = λ s h. ground (arith, e.pointers s);
            same = λ h. ground (arith, e.pointers space, e.dst_same h);
            new = λ gone.
                subst (λ d. ¬ (IsLive w.umpire d))
                  (sym (e.pointers space ∙ update_self p.pointers space dst)) (e.dst_new gone);
          };
        }

    -- A move of an array into a space of a kernel, from any coherent state, leaves a coherent state
    -- with the value in the space.
    pub move_record-Moved : (w' : World E) × (p' : PointerRecord) × Moved w r p space v w' p'
    move_record-Moved = elim (space_dec space p.last_space) [
      | yes same ↦ (_, _, Moved-same same)
      | no other ↦ elim c.holds [
        | inl (touched, value) ↦
            let (_, _, _, e) =
              ensured laws space map (record { unlocked = c.unlocked; map_live = c.map_live })
                (record {
                  real = c.real;
                  own = c.own;
                  at = c.at;
                  spaced = spaced-InUse c.in_use;
                  touched = touched;
                  here = c.here;
                  value = value;
                  live = c.live;
                }) in
            (_, _, Moved-copied touched value e other)
        | inr (clean, all) ↦ (_, _, Moved-clean other clean (all space used))
      ]
    ]
