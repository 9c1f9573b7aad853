-- ===== src/ArrayManager/Reallocate/Host.antt =====
-- ArrayManager::reallocate of an array whose memory is on the CPU.
use chai.Umpire.{Env, Pointer, ManagerLaws, MapLaws, RecordPointer, nullptr}
use chai.World.{
  World, PointerRecord, put_record, alloc, free, called, deallocated, done, for_each, copied_bytes,
  allocated,
}
use chai.Base.{
  ℕ, ◌*◌, ◌≢◌, some, ◌%◌, size_mod, ◌≡◌, min, arith, true, ◌∷◌, none, sym, ◌∙◌, refl, Option-cases,
  List, inl, inr, [], if_neg,
}
use chai.Space.{
  cpu, update, spaces, ExecutionSpace, Config, enabled, has_gpu, gpu, um, pinned, space_dec,
}
use chai.ArrayManager.Callbacks.Log.{notified, callback_lem}
use chai.ArrayManager.Reallocate.{announce_free, reallocate_space, reallocate, space_of}
use chai.ArrayManager.Move.Coherence.{IsReady}
use chai.Space.Facts.{Visited}
use chai.ArrayManager.Reallocate.Owned.{all_owned-own, announce_free-null, reallocate_space-null}
use chai.ArrayManager.Move.Effect.{update_self}

-- The spaces that the loops visit after the CPU.
abbrev after_cpu : Config → List ExecutionSpace
after_cpu c = enabled (has_gpu c) gpu (enabled c.um um (enabled c.pinned pinned []))

after_cpu-other : (c : Config) (s : ExecutionSpace) → Visited s (after_cpu c) → s ≢ cpu
after_cpu-other c s v e = ground arith

module _ {E : Env} {Block : Type 0} {contents : E.Manager → Pointer → Block}
    {IsLive : E.Manager → Pointer → Type 0} (laws : ManagerLaws E Block contents IsLive)
    (map : MapLaws E) (w : World E) (r : RecordPointer) (p : PointerRecord)
    (sizeof_t elems : ℕ) where
  abbrev pub new_size : ℕ
  new_size = sizeof_t * elems % size_mod

  -- What Umpire returns for the new block, and its state then.
  abbrev pub taken : Pointer × E.Manager
  taken = E.allocate (w.allocators cpu) new_size w.umpire

  abbrev old : Pointer
  old = p.pointers cpu

  abbrev pub resized_record : PointerRecord
  resized_record = record p { size = new_size; pointers = update p.pointers cpu taken.0 }

  abbrev announced_end : World E
  announced_end = put_record r (some (record p { size = new_size })) (notified w r p free cpu)

  abbrev exchanged : World E
  exchanged = put_record r (some resized_record) (
      called (deallocated (w.allocators cpu) old)
        (E.deallocate (w.allocators cpu) old
          (E.copy_bytes taken.0 old (min p.size new_size) taken.1))
        (called (copied_bytes taken.0 old (min p.size new_size))
          (E.copy_bytes taken.0 old (min p.size new_size) taken.1)
          (called (allocated (w.allocators cpu) new_size taken.0) taken.1 announced_end)))

  abbrev reallocated : World E
  reallocated = record (notified exchanged r resized_record alloc cpu) {
    pointer_map = E.insert taken.0 r (E.erase old w.pointer_map);
  }

  module _ (real : r ≢ nullptr) (at : w.heap r ≡ some p) (here : old ≢ nullptr) where
    announce_free-cpu : announce_free r cpu w ≡ done tt (notified w r p free cpu)
    unfolding announce_free
    announce_free-cpu = ground (arith, callback_lem w r p real at free cpu)

    reallocate_space-cpu :
        reallocate_space r new_size (min p.size new_size) cpu announced_end ≡ done tt reallocated
    unfolding reallocate_space
    reallocate_space-cpu =
        ground (arith, callback_lem exchanged r resized_record real (ground arith) alloc cpu)

    -- An array that the record owns and that has memory on the CPU alone is moved to a new block there:
    -- Umpire is asked for the new block, to copy the smaller of the two sizes, and to take the old
    -- one back, in that order, the new pointer is returned and is in the map for the record, the old
    -- one is out of it, and the record has the new size and pointer. The record is live and not
    -- null, its block is live, the map holds live pointers only, and the resource manager
    -- and the map meet their laws.
    pub reallocate-cpu :
        IsReady laws w
        → IsLive w.umpire old
        → ((s : ExecutionSpace) → p.owned s ≡ true)
        → ((s : ExecutionSpace) → s ≢ cpu → p.pointers s ≡ nullptr)
        → (w' : World E) × (reallocate sizeof_t old elems r w ≡ done taken.0 w')
          × (w'.heap r ≡ some resized_record)
          × (w'.calls
              ≡ deallocated (w.allocators cpu) old
                ∷ copied_bytes taken.0 old (min p.size new_size)
                ∷ allocated (w.allocators cpu) new_size taken.0
                ∷ w.calls)
          × (E.find taken.0 w'.pointer_map ≡ some r)
          × (E.find old w'.pointer_map ≡ none)
    unfolding reallocate for_each spaces space_of
    reallocate-cpu ready live own alone =
        let apart : old ≢ taken.0 =
          (laws.allocate_new (w.allocators cpu) new_size w.umpire).1 old live in
        let unknown : E.find taken.0 w.pointer_map ≡ none =
          elim (Option-cases (E.find taken.0 w.pointer_map)) [
            | inl e ↦ e
            | inr (o, e) ↦ absurd (
                (laws.allocate_new (w.allocators cpu) new_size w.umpire).1 _ (ready.map_live _ o e)
                  refl)
          ] in
        let gone : (s : ExecutionSpace) → Visited s (after_cpu E.config) → p.pointers s ≡ nullptr =
          λ s v. alone s (after_cpu-other E.config s v) in
        let gone' : (s : ExecutionSpace)
            → Visited s (after_cpu E.config)
            → resized_record.pointers s ≡ nullptr =
          λ s v.
            if_neg (space_dec cpu s) (λ e. after_cpu-other E.config s v (sym e)) taken.0
              (p.pointers s)
            ∙ gone s v in
        (
          reallocated,
          ground (
            arith,
            all_owned-own (spaces E.config) p.owned own,
            announce_free-cpu,
            announce_free-null r (after_cpu E.config) (notified w r p free cpu) p at gone,
            reallocate_space-cpu,
            reallocate_space-null r (after_cpu E.config) reallocated resized_record new_size
                (min p.size new_size) (ground arith) gone',
            update_self p.pointers cpu taken.0,
          ),
          ground arith,
          refl,
          map.find_insert_fresh taken.0 r (E.erase old w.pointer_map)
              (map.find_erase_other old taken.0 w.pointer_map (λ e. apart (sym e)) ∙ unknown),
          map.find_insert_other taken.0 old r (E.erase old w.pointer_map) apart
              ∙ map.find_erase old w.pointer_map,
        )
