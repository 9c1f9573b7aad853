-- ===== src/ArrayManager/Consistent/Singles.antt =====
-- ArrayManager::free of the memory in one space keeps the invariant, for memory that the record owns
-- and that no other space shares.
use chai.Base.{
  ◌≡◌, ◌≢◌, some, false, true, ◌⊎◌, subst, Bool-cases, inl, ℕ_discrete, ap, inr, ◌∙◌, sym, refl,
  arith,
}
use chai.Space.{ExecutionSpace, spaces, um, pinned, update, space_dec}
use chai.Space.Facts.{Visited, none-not-Visited}
use chai.Umpire.{Env, Pointer, RecordPointer, nullptr, MapLaws, ReleaseLaws}
use chai.ArrayManager.Free.{free_record, free_space, forget}
use chai.ArrayManager.Free.Effect.{
  given_back, free_space-own, free_space-um, free_space-pinned, free_space-null,
}
use chai.ArrayManager.Free.Erase.{forget_cases}
use chai.ArrayManager.Free.Deallocations.{forget-Visited}
use chai.ArrayManager.Free.Single.{free_record-space}
use chai.ArrayManager.Consistent.Dropped.{IsExclusive, dropped-Consistent}
use chai.World.{World, PointerRecord, done}
use chai.ArrayManager.Consistent.{IsConsistent, world-IsConsistent, Consistent, real_of}
use chai.ArrayManager.Move.Effect.{update_self}

module _ {E : Env} {IsLive : E.Manager → Pointer → Type 0} (map : MapLaws E)
    (laws : ReleaseLaws E IsLive) {r : RecordPointer} (w : World E) (p : PointerRecord)
    (c : IsConsistent E IsLive w) (at : w.heap r ≡ some p) (space : ExecutionSpace)
    (visited : Visited space (spaces E.config)) (alone : IsExclusive p) where
  module _ (here : p.pointers space ≢ nullptr) where
    -- Forgetting the pointer clears the space and no other.
    forget-update :
        (s : ExecutionSpace)
        → forget (spaces E.config) (p.pointers space) p.pointers s
          ≡ update p.pointers space nullptr s
    forget-update s = elim (space_dec space s) [
      | yes e ↦
          subst
            (λ t.
              forget (spaces E.config) (p.pointers space) p.pointers t
              ≡ update p.pointers space nullptr t)
            e
            (forget-Visited (spaces E.config) (p.pointers space) p.pointers space visited (inl refl)
              ∙ sym (update_self p.pointers space nullptr))
      | no n ↦ elim (forget_cases (spaces E.config) (p.pointers space) p.pointers s) [
        | inl same ↦ ground (arith, same)
        | inr (same, gone) ↦ absurd (n (alone space s here (sym same)))
      ]
    ]

    given_back-IsConsistent :
        (shared : ExecutionSpace) (f : ExecutionSpace → Pointer)
        → ((s : ExecutionSpace) → f s ≡ update p.pointers space nullptr s)
        → IsConsistent E IsLive (given_back w r p shared (p.pointers space) f)
    given_back-IsConsistent shared f same =
        let end : World E = given_back w r p shared (p.pointers space) f in
        world-IsConsistent end refl refl (
          subst (λ l. Consistent E IsLive end.heap end.next_record l end.pointer_map end.umpire)
            c.unlocked
            (dropped-Consistent c end.heap p (record p { pointers = f }) space at here alone same
              (λ q. refl) (map.find_erase (p.pointers space) w.pointer_map)
              (λ q h. map.find_erase_other (p.pointers space) q w.pointer_map h)
              (λ q o e.
                let other : q ≢ p.pointers space = λ h. cc (
                  e,
                  map.find_erase (p.pointers space) w.pointer_map,
                  ap (λ z. E.find z (E.erase (p.pointers space) w.pointer_map)) h,
                ) in
                laws.deallocate_keeps (p.allocators shared) (p.pointers space) w.umpire q other (
                  c.live q o
                    (sym (map.find_erase_other (p.pointers space) q w.pointer_map other) ∙ e)))))

    free_space-owned :
        p.owned space ≡ true
        → (w' : World E) × (free_space r space w ≡ done tt w') × IsConsistent E IsLive w'
    free_space-owned own = elim (decide) [
      | inl (u, e) ↦ (
        _,
        free_space-um w r p space (real_of c at) c.unlocked at here own u (ap p.pointers e),
        given_back-IsConsistent um (forget (spaces E.config) (p.pointers space) p.pointers)
            forget-update,
      )
      | inr (inl (u, v, e)) ↦ (
        _,
        free_space-pinned w r p space (real_of c at) c.unlocked at here own u v (ap p.pointers e),
        given_back-IsConsistent pinned (forget (spaces E.config) (p.pointers space) p.pointers)
            forget-update,
      )
      | inr (inr (no_um, no_pinned)) ↦ (
        _,
        free_space-own w r p space (real_of c at) c.unlocked at here own
            (λ u e. no_um u (alone space um here e))
            (λ u v e. no_pinned u v (alone space pinned here e)),
        given_back-IsConsistent space (update p.pointers space nullptr) (λ s. refl),
      )
    ]
      where
        decide :
            ((E.config.um ≡ true) × (space ≡ um))
            ⊎ (((E.config.um ≡ false) × (E.config.pinned ≡ true) × (space ≡ pinned))
                ⊎ ((E.config.um ≡ true → space ≢ um)
                    × (E.config.um ≡ false → E.config.pinned ≡ true → space ≢ pinned)))
        decide = elim (Bool-cases E.config.um) [
          | inl u ↦ elim (space_dec space um) [
            | yes e ↦ inl (u, e)
            | no n ↦ inr (inr (λ _. n, λ v. cc))
          ]
          | inr u ↦ elim (Bool-cases E.config.pinned) [
            | inr v ↦ inr (inr (λ x. cc, λ _ x. cc))
            | inl v ↦ elim (space_dec space pinned) [
              | yes e ↦ inr (inl (u, v, e))
              | no n ↦ inr (inr (λ x. cc, λ _ _. n))
            ]
          ]
        ]

  pub free_record_space-IsConsistent :
      p.owned space ≡ true
      → (w' : World E) × (free_record r space w ≡ done tt w') × IsConsistent E IsLive w'
  free_record_space-IsConsistent own = elim (ℕ_discrete (p.pointers space) nullptr) [
    | yes gone ↦ (
      w,
      free_record-space r space spaced w (real_of c at) visited
          (free_space-null w r p space (real_of c at) c.unlocked at gone),
      c,
    )
    | no here ↦
        let (w', runs, k) = free_space-owned here own in
        (w', free_record-space r space spaced w (real_of c at) visited runs, k)
  ]
    where
      spaced : space ≢ ExecutionSpace.none
      spaced e = none-not-Visited E.config (subst (λ s. Visited s (spaces E.config)) e visited)
