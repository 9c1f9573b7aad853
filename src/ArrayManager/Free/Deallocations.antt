-- ===== src/ArrayManager/Free/Deallocations.antt =====
-- The deallocations of ArrayManager::free for memory of UM in a build with UM, and for memory of
-- PINNED in a build with PINNED alone.
use chai.Space.{space_dec, ExecutionSpace, cpu, update, spaces, um, pinned, enabled, has_gpu, gpu}
use chai.ArrayManager.Free.{forget, free_record, selected, free_space}
use chai.World.{PointerRecord, World, for_each, Run, delete, done, null_record, pure, put_record}
use chai.Base.{
  List, ◌≢◌, ◌≡◌, ◌⊎◌, ◌∷◌, true, if◌then◌else◌, inl, ◌==◌, arith, inr, [], some, false, refl, ◌+◌,
  none, sym, ◌∙◌, ap,
}
use chai.Umpire.{Pointer, nullptr, Env, RecordPointer}
use chai.Space.Facts.{Visited}
use chai.ArrayManager.Free.Effect.{given_back, free_space-null, free_space-um, free_space-pinned}
use chai.ArrayManager.Free.Shared.{deallocations}

-- A shared block, as `ManagedArray::allocate` leaves it: each space has its pointer or none.
pub record IsShared (p : PointerRecord) (shared : ExecutionSpace) (q : Pointer) : Type 0 where
  pub here : q ≢ nullptr
  pub on_cpu : p.pointers cpu ≡ q
  pub on_shared : p.pointers shared ≡ q
  pub others : (s : ExecutionSpace) → (p.pointers s ≡ q) ⊎ (p.pointers s ≡ nullptr)
  pub own : (s : ExecutionSpace) → p.owned s ≡ true

forget-nullptr :
    (ss : List ExecutionSpace) (q : Pointer) (f : ExecutionSpace → Pointer) (t : ExecutionSpace)
    → (f t ≡ nullptr)
    → forget ss q f t ≡ nullptr
unfolding forget space_dec
forget-nullptr [] q f t e = e
forget-nullptr (s ∷ ss) q f t e =
    forget-nullptr ss q (if q == f s then update f s nullptr else f) t (ground arith)

-- Forgetting a pointer clears each space visited that has it.
pub forget-Visited :
    (ss : List ExecutionSpace) (q : Pointer) (f : ExecutionSpace → Pointer) (t : ExecutionSpace)
    → Visited t ss
    → (f t ≡ q) ⊎ (f t ≡ nullptr)
    → forget ss q f t ≡ nullptr
unfolding forget space_dec
forget-Visited [] q f t v h = absurd v
forget-Visited (s ∷ ss) q f t (inl e) h =
    forget-nullptr ss q (if q == f s then update f s nullptr else f) t (ground arith)
forget-Visited (s ∷ ss) q f t (inr v) h =
    forget-Visited ss q (if q == f s then update f s nullptr else f) t v (ground arith)

module _ {E : Env} (r : RecordPointer) (real : r ≢ nullptr) where
  abbrev round : ExecutionSpace → World E → Run E (Unit {0})
  round s = selected s ExecutionSpace.none (free_space r s) (pure tt)

  -- Nothing is done for a record without pointers.
  loop-null :
      (ss : List ExecutionSpace) (w : World E) (p : PointerRecord)
      → w.heap r ≡ some p
      → w.locked ≡ false
      → ((s : ExecutionSpace) → Visited s ss → p.pointers s ≡ nullptr)
      → for_each ss round w ≡ done tt w
  unfolding for_each space_dec
  loop-null [] w p at unlocked gone = refl
  loop-null (s ∷ ss) w p at unlocked gone = ground (
    arith,
    free_space-null w r p s real unlocked at (gone s (inl refl)),
    loop-null ss w p at unlocked (λ t v. gone t (inr v)),
  )

  -- The record and the world once the block is given back.
  abbrev given : World E → PointerRecord → ExecutionSpace → Pointer → World E
  given w p shared q = given_back w r p shared q (forget (spaces E.config) q p.pointers)

  first-round :
      (w : World E) (p : PointerRecord) (shared : ExecutionSpace) (q : Pointer)
      → w.heap r ≡ some p
      → w.locked ≡ false
      → IsShared p shared q
      → ((E.config.um ≡ true) × (shared ≡ um))
        ⊎ ((E.config.um ≡ false) × (E.config.pinned ≡ true) × (shared ≡ pinned))
      → free_space r cpu w ≡ done tt (given w p shared q)
  first-round w p shared q at unlocked h (inl (u, e)) =
      free_space-um w r p cpu real unlocked at (λ z. h.here (sym h.on_cpu ∙ z)) (h.own cpu) u
        (h.on_cpu ∙ sym h.on_shared ∙ ap p.pointers e)
      ∙ ap (λ x. done tt (given w p um x)) h.on_cpu
      ∙ ap (λ s. done tt (given w p s q)) (sym e)
  first-round w p shared q at unlocked h (inr (u, v, e)) =
      free_space-pinned w r p cpu real unlocked at (λ z. h.here (sym h.on_cpu ∙ z)) (h.own cpu) u v
        (h.on_cpu ∙ sym h.on_shared ∙ ap p.pointers e)
      ∙ ap (λ x. done tt (given w p pinned x)) h.on_cpu
      ∙ ap (λ s. done tt (given w p s q)) (sym e)

  -- Freeing an array whose memory several spaces share gives its block back to Umpire once: memory of
  -- UM in a build with UM, and memory of PINNED in a build with PINNED and without UM. The record is
  -- live and not the null record, it owns its memory, and the mutex is free.
  pub free_record-shared :
      (w : World E) (p : PointerRecord) (shared : ExecutionSpace) (q : Pointer)
      → r ≢ null_record
      → w.heap r ≡ some p
      → w.locked ≡ false
      → IsShared p shared q
      → ((E.config.um ≡ true) × (shared ≡ um))
        ⊎ ((E.config.um ≡ false) × (E.config.pinned ≡ true) × (shared ≡ pinned))
      → (w' : World E) × (free_record r ExecutionSpace.none w ≡ done tt w')
        × (deallocations q w'.calls ≡ 1 + deallocations q w.calls)
  unfolding free_record for_each spaces space_dec delete
  free_record-shared w p shared q kept at unlocked h build = (
    put_record r none (given w p shared q),
    ground (
      arith,
      first-round w p shared q at unlocked h build,
      loop-null
          (enabled (has_gpu E.config) gpu
            (enabled E.config.um um (enabled E.config.pinned pinned [])))
          (given w p shared q) (record p { pointers = forget (spaces E.config) q p.pointers })
          (ground arith) refl
          (λ t v. forget-Visited (spaces E.config) q p.pointers t (inr v) (h.others t)),
    ),
    ground arith,
  )
