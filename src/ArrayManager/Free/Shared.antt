-- ===== src/ArrayManager/Free/Shared.antt =====
-- What ArrayManager::free gives back to Umpire for memory that several spaces share.
use chai.Base.{
  ℕ, List, ◌∷◌, if◌then◌else◌, ◌==◌, ◌+◌, [], Bool-cases, ◌≢◌, ◌≡◌, inl, true, inr, some, false,
  sym, ◌∙◌, ap, none, arith, refl,
}
use chai.World.{
  Call, deallocated, World, PointerRecord, done, for_each, delete, null_record, put_record,
}
use chai.Umpire.{Pointer, Env, RecordPointer, nullptr}
use chai.Space.{ExecutionSpace, spaces, Config, has_gpu, um, cpu, update, gpu, pinned, space_dec}
use chai.ArrayManager.Free.{free_space, free_record}
use chai.ArrayManager.Free.Effect.{given_back, free_space-own, free_space-null}

-- How often a pointer is deallocated in a sequence of calls.
abbrev pub deallocations : Pointer → List Call → ℕ
deallocations q [] = 0
deallocations q (deallocated a p ∷ cs) = (if p == q then 1 else 0) + deallocations q cs
deallocations q (_ ∷ cs) = deallocations q cs

-- Memory of PINNED as `ManagedArray::allocate` leaves it: the CPU and the GPU share the pointer.
pub record IsPinned (c : Config) (p : PointerRecord) (q : Pointer) : Type 0 where
  pub here : q ≢ nullptr
  pub on_cpu : p.pointers cpu ≡ q
  pub on_gpu : has_gpu c ≡ true → p.pointers gpu ≡ q
  pub on_pinned : p.pointers pinned ≡ q
  pub not_um : p.pointers um ≡ nullptr
  pub own : (s : ExecutionSpace) → p.owned s ≡ true

-- The record once a space's pointer is given up.
abbrev without : PointerRecord → ExecutionSpace → PointerRecord
without p s = record p { pointers = update p.pointers s nullptr }

module _ {E : Env} (r : RecordPointer) (real : r ≢ nullptr) (q : Pointer)
    (um_build : E.config.um ≡ true) where
  -- Where UM is on, the pointer of PINNED is released as the space's own.
  abbrev once : World E → PointerRecord → ExecutionSpace → World E
  once w p s = given_back w r p s q (update p.pointers s nullptr)

  step :
      (w : World E) (p : PointerRecord) (s : ExecutionSpace)
      → w.heap r ≡ some p
      → w.locked ≡ false
      → q ≢ nullptr
      → p.pointers s ≡ q
      → p.pointers um ≡ nullptr
      → p.owned s ≡ true
      → free_space r s w ≡ done tt (once w p s)
  step w p s at unlocked here there no_um own =
      free_space-own w r p s real unlocked at (λ e. here (sym there ∙ e)) own
        (λ _ e. here (sym there ∙ e ∙ no_um)) (λ off. cc)
      ∙ ap (λ x. done tt (given_back w r p s x (update p.pointers s nullptr))) there

  -- In a build with both UM and PINNED, freeing an array of PINNED memory gives its one block back to
  -- Umpire once for each space that shares it: twice, and three times where there is a GPU. The
  -- record is live and not the null record, it owns its memory, and the mutex is free.
  pub free_record-pinned :
      (w : World E) (p : PointerRecord)
      → E.config.pinned ≡ true
      → r ≢ null_record
      → w.heap r ≡ some p
      → w.locked ≡ false
      → IsPinned E.config p q
      → (w' : World E) × (free_record r ExecutionSpace.none w ≡ done tt w')
        × (deallocations q w'.calls ≡ (if has_gpu E.config then 3 else 2) + deallocations q w.calls)
  unfolding free_record for_each spaces space_dec delete
  free_record-pinned w p pinned_build kept at unlocked h = elim (Bool-cases (has_gpu E.config)) [
    | inl g ↦
        let w1 : World E = once w p cpu in
        let p1 : PointerRecord = without p cpu in
        let w2 : World E = once w1 p1 gpu in
        let p2 : PointerRecord = without p1 gpu in
        (
          put_record r none (once w2 p2 pinned),
          ground (
            arith,
            step w p cpu at unlocked h.here h.on_cpu h.not_um (h.own cpu),
            step w1 p1 gpu (ground arith) refl h.here (h.on_gpu g) h.not_um (h.own gpu),
            free_space-null w2 r p2 um real refl (ground arith) h.not_um,
            step w2 p2 pinned (ground arith) refl h.here h.on_pinned h.not_um (h.own pinned),
          ),
          ground arith,
        )
    | inr g ↦
        let w1 : World E = once w p cpu in
        let p1 : PointerRecord = without p cpu in
        (
          put_record r none (once w1 p1 pinned),
          ground (
            arith,
            step w p cpu at unlocked h.here h.on_cpu h.not_um (h.own cpu),
            free_space-null w1 r p1 um real refl (ground arith) h.not_um,
            step w1 p1 pinned (ground arith) refl h.here h.on_pinned h.not_um (h.own pinned),
          ),
          ground arith,
        )
  ]
