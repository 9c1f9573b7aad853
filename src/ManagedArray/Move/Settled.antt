-- ===== src/ManagedArray/Move/Settled.antt =====
-- The capture of a ManagedArray by a kernel of the CPU or of the GPU.
use chai.ManagedArray.Move.{move, copy}
use chai.ManagedArray.Move.{is_pinned_down}
use chai.Umpire.{Env, Pointer, ManagerLaws, MapLaws, nullptr, RecordPointer}
use chai.Space.{space_dec, Config, has_gpu, ExecutionSpace}
use chai.World.{PointerRecord, World, done, put_record, null_record}
use chai.ManagedArray.Handle.{Element, ManagedArray}
use chai.ArrayManager.Move.Settled.{
  InUse, IsCoherent, move_record-Moved, Moved, spaced-InUse, Framed,
}
use chai.Base.{◌≡◌, false, arith, true, ◌≢◌, ◌⊎◌, ◌<◌, Bool-cases, inl, inr, some, ◌∙◌, refl}
use chai.ArrayManager.Move.{move_pointer, move_record}
use chai.ManagedArray.Move.Coherence.{pointed, recounted, copy-move}
use chai.ArrayManager.Move.Coherence.{marked, register_touch_lem}

not_pinned_down-InUse :
    (c : Config) (p : PointerRecord) → InUse p.last_space → is_pinned_down c p ≡ false
unfolding is_pinned_down space_dec
not_pinned_down-InUse c p u = ground arith

-- A move that ends with a live block, with the value, in the space.
pub record Reached {E : Env} {Block : Type 0} (contents : E.Manager → Pointer → Block)
    (IsLive : E.Manager → Pointer → Type 0) (w : World E) (r : RecordPointer)
    (space : ExecutionSpace) (v : Block) (w' : World E) (p' : PointerRecord) : Type 0 where
  pub moves : move_record r space w ≡ done tt w'
  pub at : w'.heap r ≡ some p'
  pub not_down : is_pinned_down E.config p' ≡ false
  pub present : p'.pointers space ≢ nullptr
  pub value : contents w'.umpire (p'.pointers space) ≡ v
  pub live : (s : ExecutionSpace) → p'.pointers s ≢ nullptr → IsLive w'.umpire (p'.pointers s)
  pub unlocked : w'.locked ≡ false
  pub map_live :
      (q : Pointer) (o : RecordPointer) → E.find q w'.pointer_map ≡ some o → IsLive w'.umpire q

module _ {E : Env} {Block : Type 0} {contents : E.Manager → Pointer → Block}
    {IsLive : E.Manager → Pointer → Type 0} (laws : ManagerLaws E Block contents IsLive)
    (T : Element) (a : ManagedArray) where
  -- A copy in the world `w` yields the handle `b`.
  pub record Captured (w : World E) (v : Block) (b : ManagedArray) (w' : World E)
      (p' : PointerRecord) : Type 0 where
    pub runs : copy T a w ≡ done b w'
    pub coherent : IsCoherent laws w' a.pointer_record p' v
    pub base : b.active_base_pointer ≡ p'.pointers w.current_execution_space
    pub present : b.active_base_pointer ≢ nullptr
    pub value : contents w'.umpire b.active_base_pointer ≡ v
    pub touched : T.is_const ≡ false → p'.touched w.current_execution_space ≡ true
    pub last_space : T.is_const ≡ false → p'.last_space ≡ w.current_execution_space

  -- The touch of the space makes the state coherent.
  pub Reached-Captured :
      T.is_const ≡ false
      → (a.active_base_pointer ≢ nullptr) ⊎ (0 < a.elems)
      → {w w' : World E} {p p' : PointerRecord} {v : Block} → a.pointer_record ≢ nullptr
      → a.pointer_record ≢ null_record
      → w.heap a.pointer_record ≡ some p
      → InUse w.current_execution_space
      → Reached contents IsLive w a.pointer_record w.current_execution_space v w' p'
      → Captured w v
          (pointed T (recounted T a p) (p'.pointers w.current_execution_space))
          (put_record a.pointer_record (some (marked p' w.current_execution_space)) w')
          (marked p' w.current_execution_space)
  unfolding move move_pointer
  Reached-Captured const filled {w} {w'} {p} {p'} real own at used m = record {
    runs =
        copy-move T a w p filled real at
        ∙ ground (
          arith,
          m.moves,
          m.at,
          m.not_down,
          spaced-InUse used,
          register_touch_lem w' a.pointer_record p' w.current_execution_space real own m.at
              (spaced-InUse used),
        );
    coherent = record {
      real = real;
      own = own;
      at = ground arith;
      in_use = used;
      here = m.present;
      live = m.live;
      unlocked = m.unlocked;
      map_live = m.map_live;
      holds = inl (ground arith, m.value);
    };
    base = refl;
    present = m.present;
    value = m.value;
    touched = λ e. ground arith;
    last_space = λ e. refl;
  }

  Moved-Reached :
      {w w' : World E} {p p' : PointerRecord} {v : Block}
      → Moved laws w a.pointer_record p w.current_execution_space v w' p'
      → Reached contents IsLive w a.pointer_record w.current_execution_space v w' p'
  Moved-Reached {p' = p'} m = record {
    moves = m.moves;
    at = m.coherent.at;
    not_down = not_pinned_down-InUse E.config p' m.coherent.in_use;
    present = m.present;
    value = m.value;
    live = m.coherent.live;
    unlocked = m.coherent.unlocked;
    map_live = m.coherent.map_live;
  }

  module _ {w : World E} {p : PointerRecord} {v : Block} (gpus : has_gpu E.config ≡ true)
      (map : MapLaws E) (c : IsCoherent laws w a.pointer_record p v)
      (used : InUse w.current_execution_space)
      (filled : (a.active_base_pointer ≢ nullptr) ⊎ (0 < a.elems)) where
    Captured-const :
        T.is_const ≡ true
        → {w' : World E} {p' : PointerRecord}
        → Moved laws w a.pointer_record p w.current_execution_space v w' p'
        → Captured w v (pointed T (recounted T a p) (p'.pointers w.current_execution_space)) w' p'
    unfolding move move_pointer
    Captured-const const {w'} {p'} m = record {
      runs =
          copy-move T a w p filled c.real c.at
          ∙ ground (
            arith,
            m.moves,
            m.coherent.at,
            not_pinned_down-InUse E.config p' m.coherent.in_use,
            spaced-InUse used,
          );
      coherent = m.coherent;
      base = refl;
      present = m.present;
      value = m.value;
      touched = λ e. absurd (ground arith);
      last_space = λ e. absurd (ground arith);
    }

    marked-Framed :
        {w' : World E} {p' : PointerRecord}
        → Framed laws w a.pointer_record p w.current_execution_space w' p'
        → Framed laws w a.pointer_record p w.current_execution_space
            (put_record a.pointer_record (some (marked p' w.current_execution_space)) w')
            (marked p' w.current_execution_space)
    marked-Framed f = record {
      current = f.current;
      others = λ q h. ground (arith, f.others q h);
      kept = f.kept;
      elsewhere = f.elsewhere;
      same = f.same;
      new = f.new;
    }

    -- A capture, in the space of a kernel, of an array in a coherent state yields a handle whose base
    -- is the record's block in that space, with the array's value, and keeps the other arrays.
    pub copy-Captured :
        (b : ManagedArray) × (w' : World E) × (p' : PointerRecord) × Captured w v b w' p'
        × Framed laws w a.pointer_record p w.current_execution_space w' p'
    copy-Captured =
        let (_, _, m) = move_record-Moved laws w w.current_execution_space gpus map c used in
        elim (Bool-cases T.is_const) [
          | inl const ↦ (_, _, _, Captured-const const m, m.framed)
          | inr mutable ↦ (
            _,
            _,
            _,
            Reached-Captured mutable filled c.real c.own c.at used (Moved-Reached m),
            marked-Framed m.framed,
          )
        ]
