-- ===== src/Kernel/Fresh.antt =====
-- The first kernel that writes a new ManagedArray, and the program from the allocation on.
use chai.Umpire.{Env, Pointer, ManagerLaws, RecordPointer, MapLaws, nullptr}
use chai.ManagedArray.Allocate.{allocate}
use chai.World.{World, PointerRecord, null_record, captured, UserCallback, for_each, done, bind}
use chai.Kernel.Uses.{
  Policy, sequential, gpu_async, StoreLaws, run_use, writes, update_range, mutable, run_uses, Use,
  policy_space, apply_uses,
}
use chai.Base.{
  Option, Bool, ◌≢◌, ◌≡◌, some, false, ℕ_discrete, ◌∙◌, arith, subst, sym, refl, true, ℕ, ◌⊎◌, ◌<◌,
  ◌-◌, List, ◌∷◌, inr, ap,
}
use chai.Space.{ExecutionSpace, space_dec, has_gpu, um, pinned}
use chai.Kernel.Launched.{entered, entered-InUse}
use chai.ArrayManager.Move.Settled.{InUse, spaced-InUse}
use chai.ArrayManager.Move.Coherence.{
  Ensured, IsReady, move_record-migrate, Ensured-absent, Ensured-present,
}
use chai.ArrayManager.Move.{migrate}
use chai.ArrayManager.Callbacks.Log.{notified}
use chai.ManagedArray.Move.{is_pinned_down, copy}
use chai.ManagedArray.Move.Settled.{Reached, Reached-Captured}
use chai.ManagedArray.Handle.{Element, ManagedArray, empty_array}
use chai.Kernel.Refines.{Computed, writes-Computed, run_uses-Computed, captured_value}
use chai.ManagedArray.Allocate.Handle.{
  filled, prepared, sized_record, prepared-Ensured, new_array, allocate-new_array,
}
use chai.ArrayManager.Move.Effect.{held}
use chai.ArrayManager.Settings.Effect.{in_space}

module _ {E : Env} {Block : Type 0} {contents : E.Manager → Pointer → Block}
    {IsLive : E.Manager → Pointer → Type 0} (laws : ManagerLaws E Block contents IsLive) where
  -- The record at `r` is `p`, which no touch marks and which was touched in no space.
  pub record Fresh (heap : RecordPointer → Option PointerRecord) (u : E.Manager) (locked : Bool)
      (m : E.Map) (r : RecordPointer) (p : PointerRecord) : Type 0 where
    pub real : r ≢ nullptr
    pub own : r ≢ null_record
    pub at : heap r ≡ some p
    pub nowhere : p.last_space ≡ ExecutionSpace.none
    pub clean : p.touched ExecutionSpace.none ≡ false
    pub live : (s : ExecutionSpace) → p.pointers s ≢ nullptr → IsLive u (p.pointers s)
    pub unlocked : locked ≡ false
    pub map_live : (q : Pointer) (o : RecordPointer) → E.find q m ≡ some o → IsLive u q

  abbrev pub IsFresh : World E → RecordPointer → PointerRecord → Type 0
  IsFresh w = Fresh w.heap w.umpire w.locked w.pointer_map

  module _ (w : World E) {r : RecordPointer} {p : PointerRecord} (space : ExecutionSpace)
      (map : MapLaws E) (c : IsFresh w r p) (used : InUse space) where
    fresh-Ensured :
        (dst : Pointer) × (w' : World E) × (p' : PointerRecord) × Ensured laws
          (notified w r p captured space)
          r
          p
          space
          dst
          w'
          p'
    fresh-Ensured =
        let ready : IsReady laws (notified w r p captured space) = record {
          unlocked = c.unlocked;
          map_live = c.map_live;
        } in
        elim (ℕ_discrete (p.pointers space) nullptr) [
          | yes gone ↦ (_, _, _, Ensured-absent laws _ r p space ready c.real c.at gone map)
          | no here ↦
              (_, _, _, Ensured-present laws _ r p space ready c.real c.at here (c.live space here))
        ]

    Ensured-Reached :
        {dst : Pointer} {w' : World E} {p' : PointerRecord}
        → Ensured laws (notified w r p captured space) r p space dst w' p'
        → Reached contents IsLive w r space (contents w'.umpire (p'.pointers space)) w' p'
    unfolding migrate is_pinned_down space_dec
    Ensured-Reached {dst} {w'} {p'} e = record {
      moves =
          move_record-migrate w r p space c.real c.at (spaced-InUse used)
            (λ h. spaced-InUse used (h ∙ c.nowhere))
            (record {
              not_um = λ h k. ground (arith, c.nowhere);
              not_pinned = λ h k. ground (arith, c.nowhere);
            })
          ∙ ground (arith, c.at, c.nowhere, c.clean, e.runs);
      at = ground (arith, e.heap r);
      not_down = ground (arith, e.last_space, c.nowhere);
      present = ground (arith, e.pointers space, e.dst_real);
      value = refl;
      live = λ s h. elim (space_dec space s) [
        | yes same ↦ subst (IsLive w'.umpire) (ground (arith, e.pointers s)) e.dst_live
        | no other ↦
            let old : p'.pointers s ≡ p.pointers s = ground (arith, e.pointers s) in
            subst (IsLive w'.umpire) (sym old) (e.kept _ (c.live s (λ n. h (old ∙ n)))).0
      ];
      unlocked = e.ready.unlocked;
      map_live = e.ready.map_live;
    }

  entered-Fresh :
      (policy : Policy) (w : World E) {r : RecordPointer} {p : PointerRecord}
      → IsFresh w r p
      → IsFresh (entered policy w) r p
  entered-Fresh sequential w c = c
  entered-Fresh Policy.gpu w c = c
  entered-Fresh gpu_async w c = c

module _ {E : Env} {Block : Type 0} {contents : E.Manager → Pointer → Block}
    {store : Pointer → Block → E.Manager → E.Manager} {IsLive : E.Manager → Pointer → Type 0}
    (laws : ManagerLaws E Block contents IsLive) (stores : StoreLaws E contents store IsLive)
    (gpus : has_gpu E.config ≡ true) (map : MapLaws E) (T : Element) where
  -- The first kernel updates what the resource manager put in the block.
  fresh-Computed :
      (a : ManagedArray) (some_memory : (a.active_base_pointer ≢ nullptr) ⊎ (0 < a.elems))
      (policy : Policy) (begin end : ℕ) (f : ℕ → Block → Block) (w : World E) {p : PointerRecord}
      → IsFresh laws w a.pointer_record p
      → (v : Block) × (w' : World E) × (p' : PointerRecord) × Computed laws stores T a gpus map
          some_memory
          (run_use E contents store T a (writes policy begin end f) w)
          (update_range f (end - begin) begin v)
          w'
          p'
  fresh-Computed a some_memory policy begin end f w c =
      let was = entered-Fresh laws policy w c in
      let (_, _, _, e) =
        fresh-Ensured laws (entered policy w) (entered policy w).current_execution_space map was
          (entered-InUse policy w) in
      (
        _,
        _,
        _,
        writes-Computed laws stores T a gpus map some_memory policy begin end f w (
            Reached-Captured laws (mutable T) a refl some_memory was.real was.own was.at
              (entered-InUse policy w)
              (Ensured-Reached laws (entered policy w) (entered policy w).current_execution_space
                map was (entered-InUse policy w) e)),
      )

  module _ (w : World E) (elems : ℕ) (space : ExecutionSpace) (cback : UserCallback) where
    new_array-IsFresh :
        IsReady laws w
        → null_record < w.next_record
        → IsFresh laws (filled laws map T w elems space cback) w.next_record (
            held
              (prepared laws map T w elems space cback)
              w.next_record
              (sized_record laws map T w elems space cback)
              space)
    new_array-IsFresh ready next =
        let e = prepared-Ensured laws map T w elems space cback ready next in
        record {
          real = λ h. omega arith;
          own = λ h. omega arith;
          at = ground (arith, e.heap w.next_record);
          nowhere = refl;
          clean = refl;
          live = λ s h. elim (space_dec space s) [
            | yes same ↦ subst (IsLive _) (ground (arith, e.pointers s)) e.dst_live
            | no other ↦ absurd (h (ground (arith, e.pointers s)))
          ];
          unlocked = e.ready.unlocked;
          map_live = e.ready.map_live;
        }

    -- In a build with a GPU, an empty array that is allocated in a space that is neither NONE, UM nor
    -- PINNED can be used by any program of kernels that starts with a kernel that updates it, on the
    -- CPU or the GPU: the allocation and the program run to their ends, and a capture that follows, of
    -- either kind and on either side, yields a handle whose base has what the updates compute from the
    -- bytes that the first kernel found. The element count is positive, the mutex is free, the map
    -- holds live pointers only, the new record's address is neither null nor that of the null record,
    -- and the resource manager, the map and the kernels' stores meet their laws.
    pub allocate-run_uses :
        0 < elems
        → space ≢ ExecutionSpace.none
        → space ≢ um
        → space ≢ pinned
        → IsReady laws w
        → null_record < w.next_record
        → (policy : Policy) (begin end : ℕ) (f : ℕ → Block → Block) (us : List (Use Block))
        → (a : ManagedArray) × (w1 : World E) × (w2 : World E) × (v : Block) × (allocate T
              empty_array elems space cback w
            ≡ done a w1)
          × (run_uses E contents store T a (writes policy begin end f ∷ us) w1 ≡ done tt w2)
          × ((last : Policy) (U : Element)
              → (b : ManagedArray) × (w3 : World E) × (copy U a (in_space (policy_space last) w2)
                  ≡ done b w3)
                × (contents w3.umpire b.active_base_pointer
                    ≡ apply_uses us (update_range f (end - begin) begin v)))
    unfolding run_uses for_each
    allocate-run_uses some_elems spaced no_um no_pinned ready next policy begin end f us =
        let a : ManagedArray = new_array laws map T w elems space cback in
        let w1 : World E = filled laws map T w elems space cback in
        let (v, w', p', first) =
          fresh-Computed a (inr some_elems) policy begin end f w1 (new_array-IsFresh ready next) in
        let (w2, p2, rest) =
          run_uses-Computed laws stores T a gpus map (inr some_elems) us w' first.coherent in
        (
          a,
          w1,
          w2,
          v,
          allocate-new_array laws map T w elems space cback some_elems spaced no_um no_pinned ready
              next,
          ap (λ run. bind run (λ _. for_each us (run_use E contents store T a))) first.runs
              ∙ rest.runs,
          λ last U.
              captured_value laws stores T a gpus map (inr some_elems) last U w2 rest.coherent,
        )
