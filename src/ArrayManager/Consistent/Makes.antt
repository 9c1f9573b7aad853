-- ===== src/ArrayManager/Consistent/Makes.antt =====
-- ArrayManager::makeManaged and deepCopyRecord keep the invariant.
use chai.Base.{
  ◌≡◌, ◌≢◌, some, arith, refl, ℕ, Bool, ◌<◌, none, false, Option, if◌then◌else◌, ◌+◌, ◌==◌,
}
use chai.Umpire.{Env, Pointer, RecordPointer, ManagerLaws, MapLaws, nullptr}
use chai.ArrayManager.Create.{deep_copy_record, or_default, make_managed}
use chai.ArrayManager.Create.Copies.{
  blank, made, filled, kept_record, copy_record, copied_world, deep_copy_record-copied, target,
  source,
}
use chai.ArrayManager.Create.Lookup.{
  registered_world, unregistered, pointer_there, filled_in, make_managed-registered,
}
use chai.World.{World, null_record, PointerRecord, done}
use chai.ArrayManager.Consistent.{IsConsistent, used_of, written-Consistent, world-IsConsistent}
use chai.Space.Facts.{Visited}
use chai.Space.{spaces, ExecutionSpace}
use chai.ArrayManager.Consistent.Placed.{made-Consistent, placed-Consistent}
use chai.ArrayManager.Consistent.Moves.{after_allocate-IsConsistent, allocate-after}
use chai.ArrayManager.Move.Effect.{after_allocate-heap}
use chai.ArrayManager.Register.Effect.{entered, with_owner}
use chai.ArrayManager.Move.Coherence.{told-Kept}

module _ {E : Env} {Block : Type 0} {contents : E.Manager → Pointer → Block}
    {IsLive : E.Manager → Pointer → Type 0} (laws : ManagerLaws E Block contents IsLive)
    (map : MapLaws E) (w : World E) (c : IsConsistent E IsLive w) where
  new_own : w.next_record ≢ null_record
  new_own e = omega (arith, c.spare)

  module _ (r : RecordPointer) (p : PointerRecord) (at : w.heap r ≡ some p)
      (visited : Visited p.last_space (spaces E.config))
      (full : p.pointers p.last_space ≢ nullptr) where
    made-IsConsistent : IsConsistent E IsLive (made laws map w r p)
    made-IsConsistent = made-Consistent c _ (blank laws map w r p) (λ s. refl) (λ q. ground arith)

    filled-IsConsistent : IsConsistent E IsLive (filled laws map w r p)
    filled-IsConsistent =
        after_allocate-IsConsistent laws map new_own p.last_space (made laws map w r p)
          (blank laws map w r p) made-IsConsistent (ground arith) visited refl

    -- A deep copy of a record that was last touched in a space of the build.
    pub deep_copy_record-IsConsistent :
        (w' : World E) × (deep_copy_record r w ≡ done w.next_record w') × IsConsistent E IsLive w'
    deep_copy_record-IsConsistent = (
      copied_world laws map w r p,
      deep_copy_record-copied laws map w r p at (λ e. ground (arith, used_of c at)) full
          (allocate-after laws map new_own p.last_space (made laws map w r p) (blank laws map w r p)
            made-IsConsistent (ground arith)),
      written-Consistent filled-IsConsistent _ {r = w.next_record} (kept_record laws map w r p)
          (copy_record laws map w r p)
          (ground (
            arith,
            after_allocate-heap (made laws map w r p) w.next_record (blank laws map w r p)
                p.last_space w.next_record,
          ))
          (λ s. refl) (λ q. ground arith)
          (λ q l. laws.copy_live (target laws map w r p) (source laws map w r p) q _ l),
    )

  module _ (pointer : Pointer) (size : ℕ) (space : ExecutionSpace) (owned : Bool)
      (real : pointer ≢ nullptr) (some_bytes : 0 < size)
      (unknown : E.find pointer w.pointer_map ≡ none)
      (visited : Visited (or_default space w) (spaces E.config))
      (registers : IsLive
        (E.register_allocation pointer size (w.allocators (or_default space w)) w.umpire)
        pointer) where
    end : World E
    end = registered_world map w pointer size space owned

    new_object : PointerRecord
    new_object = with_owner E (filled_in map w pointer size space owned) (or_default space w) owned

    bare : PointerRecord
    bare = record new_object { pointers = λ _. nullptr }

    end-Kept :
        (q : Pointer)
        → IsLive (unregistered map w pointer size space owned).umpire q
        → IsLive end.umpire q
    unfolding end new_object
    end-Kept q l =
        (told-Kept laws
          (entered (unregistered map w pointer size space owned) w.next_record
            (filled_in map w pointer size space owned) (or_default space w) owned)
          w.next_record new_object (or_default space w) pointer q l).0

    end-heap :
        (q : RecordPointer)
        → end.heap q ≡ (if q == w.next_record then some new_object else w.heap q)
    unfolding end new_object
    end-heap q = ground arith

    end-map : end.pointer_map ≡ E.insert pointer w.next_record w.pointer_map
    unfolding end
    end-map = ground (arith, pointer_there map w pointer size space owned)

    end-next : end.next_record ≡ w.next_record + 1
    unfolding end
    end-next = ground arith

    end-locked : end.locked ≡ false
    unfolding end
    end-locked = ground arith

    abbrev bare_heap : RecordPointer → Option PointerRecord
    bare_heap q = if q == w.next_record then some bare else w.heap q

    -- A pointer that the map does not know, and that Umpire can register.
    pub make_managed-IsConsistent :
        (w' : World E) × (make_managed pointer size space owned w ≡ done w.next_record w')
        × IsConsistent E IsLive w'
    unfolding end new_object bare
    make_managed-IsConsistent = (
      end,
      make_managed-registered map w pointer size space owned real some_bytes c.unlocked unknown,
      world-IsConsistent end end-next end-locked (
          placed-Consistent (made-Consistent c bare_heap bare (λ s. refl) (λ q. refl)) end.heap map
            bare new_object (or_default space w) pointer (ground arith) new_own visited refl real
            unknown (λ s. refl) (λ q. ground (arith, end-heap q)) end-map
            (λ q o e.
              end-Kept q
                (laws.register_keeps pointer size (w.allocators (or_default space w)) w.umpire q
                  (c.live q o e)).0)
            (end-Kept pointer registers)),
    )
