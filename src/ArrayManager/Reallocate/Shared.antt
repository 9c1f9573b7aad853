-- ===== src/ArrayManager/Reallocate/Shared.antt =====
-- ArrayManager::reallocate of memory that several spaces share.
use chai.Base.{
  ℕ, ◌≡◌, ◌≢◌, ◌+◌, ◌≤◌, some, if◌then◌else◌, ◌==◌, List, [], ◌∷◌, ℕ_discrete, arith, inl, inr, ap,
  refl, sym, ◌∙◌, ◌*◌, ◌%◌, size_mod, true, min,
}
use chai.Space.{ExecutionSpace, spaces, Config, update, cpu, enabled, has_gpu, gpu, um, pinned}
use chai.Umpire.{Env, Pointer, RecordPointer, nullptr}
use chai.World.{
  World, PointerRecord, alloc, for_each, deallocated, copied_bytes, allocated, done, put_record,
  called,
}
use chai.ArrayManager.Reallocate.{reallocate_space, reallocate, all_owned, space_of}
use chai.ArrayManager.Free.Shared.{deallocations}
use chai.Space.Facts.{Visited, IsSimple, spaces-IsSimple}
use chai.ArrayManager.Callbacks.Log.{notified, callback_lem}
use chai.ArrayManager.Free.Deallocations.{IsShared}
use chai.ArrayManager.Reallocate.Announced.{announced}
use chai.ArrayManager.Reallocate.Owned.{all_owned-own}

-- How many of the spaces have the pointer.
abbrev holders : List ExecutionSpace → (ExecutionSpace → Pointer) → Pointer → ℕ
holders [] f q = 0
holders (s ∷ ss) f q = (if f s == q then 1 else 0) + holders ss f q

-- A write in another space does not change the count.
holders-update :
    (ss : List ExecutionSpace) (f : ExecutionSpace → Pointer) (s : ExecutionSpace) (x q : Pointer)
    → ¬ (Visited s ss)
    → holders ss (update f s x) q ≡ holders ss f q
holders-update [] f s x q h = refl
holders-update (t ∷ ts) f s x q h =
    let apart : s ≢ t = λ e. h (inl e) in ground (arith, holders-update ts f s x q (λ v. h (inr v)))

holders-Visited :
    (ss : List ExecutionSpace) (f : ExecutionSpace → Pointer) (s : ExecutionSpace) (q : Pointer)
    → Visited s ss
    → f s ≡ q
    → 1 ≤ holders ss f q
holders-Visited [] f s q v e = absurd v
holders-Visited (t ∷ ts) f s q (inl same) e =
    let here : f t ≡ q = ap f (sym same) ∙ e in ground arith
holders-Visited (t ∷ ts) f s q (inr v) e = ground (arith, holders-Visited ts f s q v e)

holders-shared :
    (c : Config) (f : ExecutionSpace → Pointer) (shared : ExecutionSpace) (q : Pointer)
    → f cpu ≡ q
    → f shared ≡ q
    → shared ≢ cpu
    → Visited shared (spaces c)
    → 2 ≤ holders (spaces c) f q
unfolding spaces
holders-shared c f shared q e e' other (inl same) = absurd (other same)
holders-shared c f shared q e e' other (inr v) =
    let rest : List ExecutionSpace =
      enabled (has_gpu c) gpu (enabled c.um um (enabled c.pinned pinned [])) in
    ground (arith, holders-Visited rest f shared q v e')

module _ {E : Env} (r : RecordPointer) (real : r ≢ nullptr) (q : Pointer) (here : q ≢ nullptr)
    (new_size num_bytes : ℕ) where
  record Rounds (w : World E) (p : PointerRecord) (ss : List ExecutionSpace) (w' : World E)
      (p' : PointerRecord) : Type 0 where
    runs : for_each ss (reallocate_space r new_size num_bytes) w ≡ done tt w'
    at : w'.heap r ≡ some p'
    count : deallocations q w'.calls ≡ holders ss p.pointers q + deallocations q w.calls

  module _ (w : World E) (p : PointerRecord) (s : ExecutionSpace) (at : w.heap r ≡ some p) where
    abbrev taken : Pointer × E.Manager
    taken = E.allocate (w.allocators s) new_size w.umpire

    abbrev moved : PointerRecord
    moved = record p { pointers = update p.pointers s taken.0 }

    abbrev exchanged : World E
    exchanged = put_record r (some moved) (
        called (deallocated (w.allocators s) (p.pointers s))
          (E.deallocate (w.allocators s) (p.pointers s)
            (E.copy_bytes taken.0 (p.pointers s) num_bytes taken.1))
          (called (copied_bytes taken.0 (p.pointers s) num_bytes)
            (E.copy_bytes taken.0 (p.pointers s) num_bytes taken.1)
            (called (allocated (w.allocators s) new_size taken.0) taken.1 w)))

    abbrev end : World E
    end = record (notified exchanged r moved alloc s) {
      pointer_map = E.insert taken.0 r (E.erase (p.pointers s) w.pointer_map);
    }

    reallocate_space-end :
        p.pointers s ≢ nullptr → reallocate_space r new_size num_bytes s w ≡ done tt end
    unfolding reallocate_space
    reallocate_space-end full =
        ground (arith, callback_lem exchanged r moved real (ground arith) alloc s)

    reallocate_space-null :
        p.pointers s ≡ nullptr → reallocate_space r new_size num_bytes s w ≡ done tt w
    unfolding reallocate_space
    reallocate_space-null gone = ground arith

  loop-Rounds :
      (ss : List ExecutionSpace) (w : World E) (p : PointerRecord)
      → w.heap r ≡ some p
      → IsSimple ss
      → (w' : World E) × (p' : PointerRecord) × Rounds w p ss w' p'
  unfolding for_each
  loop-Rounds [] w p at simple = (w, p, record { runs = refl; at = at; count = omega arith })
  loop-Rounds (s ∷ ss) w p at simple = elim (ℕ_discrete (p.pointers s) nullptr) [
    | yes gone ↦
        let (w', p', rest) = loop-Rounds ss w p at simple.1 in
        (
          w',
          p',
          record {
            runs = ground (arith, reallocate_space-null w p s at gone, rest.runs);
            at = rest.at;
            count = ground (arith, rest.count);
          },
        )
    | no full ↦
        let (w', p', rest) =
          loop-Rounds ss (end w p s at) (moved w p s at) (ground arith) simple.1 in
        (
          w',
          p',
          record {
            runs = ground (arith, reallocate_space-end w p s at full, rest.runs);
            at = rest.at;
            count =
                ground
                  (arith, rest.count, holders-update ss p.pointers s (taken w p s at).0 q simple.0);
          },
        )
  ]

module _ {E : Env} {r : RecordPointer} (real : r ≢ nullptr) (sizeof_t elems : ℕ)
    (pointer : Pointer) where
  -- A pointer is given back once for each space that has it.
  reallocate-holders :
      (w : World E) (p : PointerRecord) (q : Pointer)
      → w.heap r ≡ some p
      → q ≢ nullptr
      → all_owned (spaces E.config) p.owned ≡ true
      → (x : Pointer) × (w' : World E) × (reallocate sizeof_t pointer elems r w ≡ done x w')
        × (deallocations q w'.calls
            ≡ holders (spaces E.config) p.pointers q + deallocations q w.calls)
  unfolding reallocate
  reallocate-holders w p q at here owned =
      let (es, told) = announced (spaces E.config) w real at in
      let new_size : ℕ = sizeof_t * elems % size_mod in
      let sized : PointerRecord = record p { size = new_size } in
      let w2 : World E = put_record r (some sized) (record w { events = es }) in
      let (w', p', rounds) =
        loop-Rounds r real q here new_size (min p.size new_size) (spaces E.config) w2 sized
          (ground arith) (spaces-IsSimple E.config) in
      (
        p'.pointers (space_of (spaces E.config) p.pointers pointer),
        w',
        ground (arith, owned, told, rounds.runs, rounds.at),
        rounds.count,
      )

  -- Reallocating an array whose memory the CPU and another space of the build share, as arrays of UM
  -- and of PINNED do, returns, and gives the old block back to Umpire at least twice: each of these
  -- spaces gets a block of its own, and gives the old one back. The record is live and not null, and
  -- owns its memory in every space.
  pub reallocate-shared :
      (w : World E) (p : PointerRecord) (shared : ExecutionSpace) (q : Pointer)
      → w.heap r ≡ some p
      → IsShared p shared q
      → shared ≢ cpu
      → Visited shared (spaces E.config)
      → (x : Pointer) × (w' : World E) × (reallocate sizeof_t pointer elems r w ≡ done x w')
        × (2 + deallocations q w.calls ≤ deallocations q w'.calls)
  reallocate-shared w p shared q at h other visited =
      let (x, w', runs, count) =
        reallocate-holders w p q at h.here (all_owned-own (spaces E.config) p.owned h.own) in
      (
        x,
        w',
        runs,
        omega (
          arith,
          count,
          holders-shared E.config p.pointers shared q h.on_cpu h.on_shared other visited,
        ),
      )
