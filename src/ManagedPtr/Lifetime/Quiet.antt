-- ===== src/ManagedPtr/Lifetime/Quiet.antt =====
-- The rounds of managed_ptr::free in the spaces that hold no object, which destroy nothing.
use chai.Base.{
  List, [], ◌∷◌, ◌++◌, ◌≡◌, some, true, reverse, refl, Bool-cases, inl, inr, All, arith, ◌∙◌,
}
use chai.Space.{ExecutionSpace, cpu, gpu, um, pinned, all_spaces, spaces, has_gpu, enabled, Config}
use chai.Umpire.{Pointer}
use chai.World.{free}
use chai.ManagedPtr.Host.{told, Program, Host, PtrCallback, unset, set}
use chai.ManagedPtr.Handle.{ManagedPtr, pointer_in}
use chai.ManagedPtr.Free.{free_space, offer, free_spaces, destroy_in}
use chai.ManagedPtr.Lifetime.{destructions}

-- The spaces that hold no object.
pub data IsQuiet : ExecutionSpace → Type 0 where
  at_none : {s : ExecutionSpace} → s ≡ ExecutionSpace.none → IsQuiet s
  at_um : {s : ExecutionSpace} → s ≡ um → IsQuiet s
  at_pinned : {s : ExecutionSpace} → s ≡ pinned → IsQuiet s

abbrev pub before_gpu : Config → List ExecutionSpace
before_gpu c = enabled c.pinned pinned (enabled c.um um [])

pub reverse-all_spaces :
    (c : Config)
    → has_gpu c ≡ true
    → reverse (all_spaces c) ≡ before_gpu c ++ (gpu ∷ cpu ∷ ExecutionSpace.none ∷ [])
unfolding all_spaces spaces
reverse-all_spaces c h = elim (Bool-cases c.um) [
  | inl u ↦ elim (Bool-cases c.pinned) [ inl v ↦ rw (h, u, v) refl | inr v ↦ rw (h, u, v) refl ]
  | inr u ↦ elim (Bool-cases c.pinned) [ inl v ↦ rw (h, u, v) refl | inr v ↦ rw (h, u, v) refl ]
]

pub before_gpu-IsQuiet : (c : Config) → All IsQuiet (before_gpu c)
before_gpu-IsQuiet c = elim (Bool-cases c.um) [
  | inl u ↦ elim (Bool-cases c.pinned) [
    | inl v ↦ rw (u, v) (at_pinned refl, (at_um refl, tt))
    | inr v ↦ rw (u, v) (at_um refl, tt)
  ]
  | inr u ↦ elim (Bool-cases c.pinned) [
    | inl v ↦ rw (u, v) (at_pinned refl, tt)
    | inr v ↦ rw (u, v) tt
  ]
]

module _ {P : Program} where
  -- The records are as before, and so are the objects.
  pub record Same (h h' : Host P) : Type 0 where
    pub records : h'.records ≡ h.records
    pub deeds :
        (s : ExecutionSpace) (q : Pointer) → destructions s q h'.log ≡ destructions s q h.log

  pub quiet :
      (c : PtrCallback) (m : ManagedPtr) (s : ExecutionSpace) (h : Host P)
      → IsQuiet s
      → (h' : Host P) × (free_space c m s h ≡ some (m, h')) × Same h h'
  unfolding free_space offer destroy_in
  quiet unset m s h (at_none e) = (h, ground arith, record { records = refl; deeds = λ s q. refl })
  quiet unset m s h (at_um e) = (h, ground arith, record { records = refl; deeds = λ s q. refl })
  quiet unset m s h (at_pinned e) =
      (h, ground arith, record { records = refl; deeds = λ s q. refl })
  quiet (set n) m s h (at_none e) = (
    record h { log = told n free s (pointer_in P m s) ∷ h.log },
    ground arith,
    record { records = refl; deeds = λ s q. refl },
  )
  quiet (set n) m s h (at_um e) = (
    record h { log = told n free s (pointer_in P m s) ∷ h.log },
    ground arith,
    record { records = refl; deeds = λ s q. refl },
  )
  quiet (set n) m s h (at_pinned e) = (
    record h { log = told n free s (pointer_in P m s) ∷ h.log },
    ground arith,
    record { records = refl; deeds = λ s q. refl },
  )

  pub quiets :
      (c : PtrCallback) (m : ManagedPtr) (qs rest : List ExecutionSpace) (h : Host P)
      → All IsQuiet qs
      → (h' : Host P) × (free_spaces c m (qs ++ rest) h ≡ free_spaces c m rest h') × Same h h'
  unfolding free_spaces
  quiets c m [] rest h a = (h, refl, record { records = refl; deeds = λ s q. refl })
  quiets c m (s ∷ qs) rest h (a, as_rest) =
      let (h', runs, k) = quiet c m s h a in
      let (h'', rest_runs, k') = quiets c m qs rest h' as_rest in
      (
        h'',
        ground (arith, runs, rest_runs),
        record { records = k'.records ∙ k.records; deeds = λ s q. k'.deeds s q ∙ k.deeds s q },
      )
