-- ===== src/ArrayManager/Consistent/Exchanged.antt =====
-- One round of the loop of ArrayManager::reallocate: a block is exchanged for a new one.
use chai.Base.{
  ℕ, ◌≡◌, ◌≢◌, some, none, if◌then◌else◌, ◌==◌, arith, Option-cases, ap, Option, refl, sym, inl,
  ◌∙◌, inr, ◌<◌, if_pos, if_neg,
}
use chai.Umpire.{Env, Pointer, RecordPointer, nullptr, ManagerLaws, ReleaseLaws, MapLaws}
use chai.World.{
  alloc, World, PointerRecord, done, null_record, Run, put_record, called, deallocated,
  copied_bytes, allocated,
}
use chai.ArrayManager.Reallocate.{reallocate_space}
use chai.Space.{ExecutionSpace, spaces, update, space_dec}
use chai.ArrayManager.Consistent.{IsConsistent, real_of, world-IsConsistent}
use chai.ArrayManager.Consistent.Dropped.{IsExclusive, dropped-Consistent}
use chai.Space.Facts.{Visited}
use chai.ArrayManager.Callbacks.Log.{notified, callback_lem}
use chai.ArrayManager.Consistent.Placed.{placed-Consistent}
use chai.ArrayManager.Move.Effect.{update_self}

module _ {E : Env} {IsLive : E.Manager → Pointer → Type 0} (releases : ReleaseLaws E IsLive) where
  -- A live block that is none of the record's.
  pub record IsOther (w : World E) (p : PointerRecord) (q : Pointer) : Type 0 where
    pub live : IsLive w.umpire q
    pub distinct : (s : ExecutionSpace) → p.pointers s ≢ q

  abbrev pub Unchanged : World E → World E → Pointer → Type 0
  Unchanged w w' q = (i : ℕ) → releases.byte w'.umpire q i ≡ releases.byte w.umpire q i

  -- The record as a round of the loop leaves it, and the bytes of every block.
  pub record Round (r : RecordPointer) (num_bytes : ℕ) (w : World E) (p : PointerRecord)
      (run : Run E (Unit {0})) (w' : World E) (p' : PointerRecord) : Type 0 where
    pub runs : run ≡ done tt w'
    pub at : w'.heap r ≡ some p'
    pub consistent : IsConsistent E IsLive w'
    pub alone : IsExclusive p'
    pub size : p'.size ≡ p.size
    pub empty : (s : ExecutionSpace) → p.pointers s ≡ nullptr → p'.pointers s ≡ nullptr
    pub full : (s : ExecutionSpace) → p.pointers s ≢ nullptr → p'.pointers s ≢ nullptr
    pub copied :
        (s : ExecutionSpace) (i : ℕ)
        → p.pointers s ≢ nullptr
        → i < num_bytes
        → releases.byte w'.umpire (p'.pointers s) i ≡ releases.byte w.umpire (p.pointers s) i
    pub others : (q : Pointer) → IsOther w p q → IsOther w' p' q × Unchanged w w' q

module _ {E : Env} {Block : Type 0} {contents : E.Manager → Pointer → Block}
    {IsLive : E.Manager → Pointer → Type 0} (laws : ManagerLaws E Block contents IsLive)
    (releases : ReleaseLaws E IsLive) (map : MapLaws E) {r : RecordPointer} (own : r ≢ null_record)
    (new_size num_bytes : ℕ) where
  module _ (w : World E) (p : PointerRecord) (space : ExecutionSpace) (c : IsConsistent E IsLive w)
      (at : w.heap r ≡ some p) (alone : IsExclusive p) (visited : Visited space (spaces E.config))
      (here : p.pointers space ≢ nullptr) where
    abbrev old : Pointer
    old = p.pointers space

    abbrev taken : Pointer × E.Manager
    taken = E.allocate (w.allocators space) new_size w.umpire

    abbrev pub resized_record : PointerRecord
    resized_record = record p { pointers = update p.pointers space taken.0 }

    abbrev without : PointerRecord
    without = record p { pointers = update p.pointers space nullptr }

    abbrev exchanged : World E
    exchanged = put_record r (some resized_record) (
        called (deallocated (w.allocators space) old)
          (E.deallocate (w.allocators space) old (E.copy_bytes taken.0 old num_bytes taken.1))
          (called (copied_bytes taken.0 old num_bytes) (E.copy_bytes taken.0 old num_bytes taken.1)
            (called (allocated (w.allocators space) new_size taken.0) taken.1 w)))

    abbrev pub end : World E
    end = record (notified exchanged r resized_record alloc space) {
      pointer_map = E.insert taken.0 r (E.erase old w.pointer_map);
    }

    reallocate_space-end : reallocate_space r new_size num_bytes space w ≡ done tt end
    unfolding reallocate_space
    reallocate_space-end =
        ground
          (arith, callback_lem exchanged r resized_record (real_of c at) (ground arith) alloc space)

    old_live : IsLive w.umpire old
    old_live = c.live old r (c.listed r p space at here).0

    new_apart : (q : Pointer) → IsLive w.umpire q → q ≢ taken.0
    new_apart = (laws.allocate_new (w.allocators space) new_size w.umpire).1

    unknown : E.find taken.0 w.pointer_map ≡ none
    unknown = elim (Option-cases (E.find taken.0 w.pointer_map)) [
      | inl e ↦ e
      | inr (o, e) ↦ absurd (new_apart taken.0 (c.live taken.0 o e) refl)
    ]

    -- An entry that the erasure leaves is another's.
    left :
        (q : Pointer) (o : RecordPointer)
        → E.find q (E.erase old w.pointer_map) ≡ some o
        → (q ≢ old) × IsLive w.umpire q
    left q o e =
        let other : q ≢ old = λ same. cc (
          e,
          map.find_erase old w.pointer_map,
          ap (λ z. E.find z (E.erase old w.pointer_map)) same,
        ) in
        (other, c.live q o (sym (map.find_erase_other old q w.pointer_map other) ∙ e))

    still_live : (q : Pointer) → q ≢ old → IsLive taken.1 q → IsLive end.umpire q
    still_live q other l =
        releases.deallocate_keeps (w.allocators space) old _ q other
          (releases.copy_bytes_live taken.0 old num_bytes taken.1 q l)

    abbrev heap_without : RecordPointer → Option PointerRecord
    heap_without q = if q == r then some without else w.heap q

    end-IsConsistent : IsConsistent E IsLive end
    end-IsConsistent = world-IsConsistent end refl c.unlocked (
        placed-Consistent
          (dropped-Consistent c heap_without p without space at here alone (λ s. refl) (λ q. refl)
            (map.find_erase old w.pointer_map) (λ q h. map.find_erase_other old q w.pointer_map h)
            (λ q o e. (left q o e).1))
          end.heap map without resized_record space taken.0 (ground arith) own visited
          (update_self p.pointers space nullptr)
          (laws.allocate_new (w.allocators space) new_size w.umpire).0
          (map.find_erase_other old taken.0 w.pointer_map (λ e. new_apart old old_live (sym e))
            ∙ unknown)
          (λ s. ground arith) (λ q. ground arith) refl
          (λ q o e.
            let (other, l) = left q o e in
            still_live q other (laws.allocate_keeps (w.allocators space) new_size w.umpire q l).0)
          (still_live taken.0 (λ e. new_apart old old_live (sym e))
            (laws.allocate_live (w.allocators space) new_size w.umpire)))

    new_unlisted : (s : ExecutionSpace) → p.pointers s ≢ nullptr → p.pointers s ≢ taken.0
    new_unlisted s full =
        new_apart (p.pointers s) (c.live (p.pointers s) r (c.listed r p s at full).0)

    end-alone : IsExclusive resized_record
    end-alone s t full same = elim (space_dec space s) [
      | yes e ↦ elim (space_dec space t) [
        | yes e' ↦ sym e ∙ e'
        | no n' ↦ absurd (new_unlisted t (λ z. full (ground arith)) (ground arith))
      ]
      | no n ↦ elim (space_dec space t) [
        | yes e' ↦ absurd (new_unlisted s (λ z. full (ground arith)) (ground arith))
        | no n' ↦ alone s t (λ z. full (ground arith)) (ground arith)
      ]
    ]

    -- A live block other than the old one keeps its bytes.
    end-Unchanged : (q : Pointer) → IsLive w.umpire q → q ≢ old → Unchanged releases w end q
    end-Unchanged q l other i =
        releases.deallocate_bytes (w.allocators space) old _ q i other
        ∙ releases.copy_bytes_keeps taken.0 old q num_bytes i taken.1 (new_apart q l)
        ∙ releases.allocate_bytes (w.allocators space) new_size w.umpire q i l

    end-moved :
        (i : ℕ) → i < num_bytes → releases.byte end.umpire taken.0 i ≡ releases.byte w.umpire old i
    end-moved i h =
        releases.deallocate_bytes (w.allocators space) old _ taken.0 i
          (λ e. new_apart old old_live (sym e))
        ∙ releases.copy_bytes_to taken.0 old num_bytes i taken.1 h
        ∙ releases.allocate_bytes (w.allocators space) new_size w.umpire old i old_live

    new_pointer : (s : ExecutionSpace) → space ≡ s → resized_record.pointers s ≡ taken.0
    new_pointer s e = if_pos (space_dec space s) e taken.0 (p.pointers s)

    kept_pointer : (s : ExecutionSpace) → space ≢ s → resized_record.pointers s ≡ p.pointers s
    kept_pointer s n = if_neg (space_dec space s) n taken.0 (p.pointers s)

    end-copied :
        (s : ExecutionSpace) (i : ℕ)
        → p.pointers s ≢ nullptr
        → i < num_bytes
        → releases.byte end.umpire (resized_record.pointers s) i
          ≡ releases.byte w.umpire (p.pointers s) i
    end-copied s i full h = elim (space_dec space s) [
      | yes e ↦
          ap (λ q. releases.byte end.umpire q i) (new_pointer s e)
          ∙ end-moved i h
          ∙ ap (λ t. releases.byte w.umpire (p.pointers t) i) e
      | no n ↦
          ap (λ q. releases.byte end.umpire q i) (kept_pointer s n)
          ∙ end-Unchanged (p.pointers s) (c.live (p.pointers s) r (c.listed r p s at full).0)
              (λ e. n (sym (alone s space full e))) i
    ]

    end-IsOther :
        (q : Pointer)
        → IsOther releases w p q
        → IsOther releases end resized_record q × Unchanged releases w end q
    end-IsOther q o =
        let other : q ≢ old = λ e. o.distinct space (sym e) in
        (
          record {
            live =
                still_live q other
                  (laws.allocate_keeps (w.allocators space) new_size w.umpire q o.live).0;
            distinct = λ s. elim (space_dec space s) [
              | yes e ↦ λ z. new_apart q o.live (sym z ∙ new_pointer s e)
              | no n ↦ λ z. o.distinct s (sym (kept_pointer s n) ∙ z)
            ];
          },
          end-Unchanged q o.live other,
        )

    pub end-Round :
        Round releases r num_bytes w p
          (reallocate_space r new_size num_bytes space w)
          end
          resized_record
    end-Round = record {
      runs = reallocate_space-end;
      at = ground arith;
      consistent = end-IsConsistent;
      alone = end-alone;
      size = refl;
      empty = λ s gone. ground arith;
      full = λ s some_memory. elim (space_dec space s) [
        | yes e ↦ λ n. (laws.allocate_new (w.allocators space) new_size w.umpire).0 (ground arith)
        | no ne ↦ λ n. some_memory (ground arith)
      ];
      copied = end-copied;
      others = end-IsOther;
    }
