-- ===== src/ArrayManager/Reallocate/Owned.antt =====
-- ArrayManager::reallocate, for records that own their memory or not.
use chai.ArrayManager.Reallocate.{space_of, all_owned, reallocate, announce_free, reallocate_space}
use chai.Umpire.{Env, RecordPointer, Pointer, nullptr}
use chai.Base.{List, Bool, ℕ, ◌≡◌, false, true, some, ◌∷◌, arith, inl, inr, [], refl}
use chai.World.{World, PointerRecord, for_each, done}
use chai.Space.{ExecutionSpace, spaces}
use chai.Space.Facts.{Visited}

-- The space that holds the pointer is found.
space_of-pointer :
    (ss : List ExecutionSpace) (f : ExecutionSpace → Pointer) (s : ExecutionSpace)
    → Visited s ss
    → f (space_of ss f (f s)) ≡ f s
unfolding space_of
space_of-pointer [] f s v = absurd v
space_of-pointer (t ∷ ss) f s (inl e) = ground arith
space_of-pointer (t ∷ ss) f s (inr v) = ground (arith, space_of-pointer ss f s v)

all_owned-foreign :
    (ss : List ExecutionSpace) (owned : ExecutionSpace → Bool) (s : ExecutionSpace)
    → Visited s ss
    → owned s ≡ false
    → all_owned ss owned ≡ false
unfolding all_owned
all_owned-foreign [] owned s v h = absurd v
all_owned-foreign (t ∷ ss) owned s (inl e) h = ground arith
all_owned-foreign (t ∷ ss) owned s (inr v) h = ground (arith, all_owned-foreign ss owned s v h)

pub all_owned-own :
    (ss : List ExecutionSpace) (owned : ExecutionSpace → Bool)
    → ((s : ExecutionSpace) → owned s ≡ true)
    → all_owned ss owned ≡ true
unfolding all_owned
all_owned-own [] owned h = refl
all_owned-own (t ∷ ss) owned h = ground (arith, h t, all_owned-own ss owned h)

-- An array with memory in some space that the record does not own is left as it is: the pointer is
-- returned unchanged, and so is the state. The record is live, and the pointer is the record's in
-- some space of the build.
pub reallocate-foreign :
    {E : Env} (w : World E) (r : RecordPointer) (p : PointerRecord) (sizeof_t elems : ℕ)
    (s t : ExecutionSpace)
    → w.heap r ≡ some p
    → Visited s (spaces E.config)
    → Visited t (spaces E.config)
    → p.owned t ≡ false
    → reallocate sizeof_t (p.pointers s) elems r w ≡ done (p.pointers s) w
unfolding reallocate
reallocate-foreign {E} w r p sizeof_t elems s t at v u h = ground (
  arith,
  space_of-pointer (spaces E.config) p.pointers s v,
  all_owned-foreign (spaces E.config) p.owned t u h,
)

module _ {E : Env} (r : RecordPointer) where
  pub announce_free-null :
      (ss : List ExecutionSpace) (w : World E) (p : PointerRecord)
      → w.heap r ≡ some p
      → ((s : ExecutionSpace) → Visited s ss → p.pointers s ≡ nullptr)
      → for_each ss (announce_free r) w ≡ done tt w
  unfolding for_each announce_free
  announce_free-null [] w p at gone = refl
  announce_free-null (s ∷ ss) w p at gone =
      ground (arith, gone s (inl refl), announce_free-null ss w p at (λ t v. gone t (inr v)))

  pub reallocate_space-null :
      (ss : List ExecutionSpace) (w : World E) (p : PointerRecord) (new_size num_bytes : ℕ)
      → w.heap r ≡ some p
      → ((s : ExecutionSpace) → Visited s ss → p.pointers s ≡ nullptr)
      → for_each ss (reallocate_space r new_size num_bytes) w ≡ done tt w
  unfolding for_each reallocate_space
  reallocate_space-null [] w p new_size num_bytes at gone = refl
  reallocate_space-null (s ∷ ss) w p new_size num_bytes at gone = ground (
    arith,
    gone s (inl refl),
    reallocate_space-null ss w p new_size num_bytes at (λ t v. gone t (inr v)),
  )
