-- ===== src/Runs/Arrays.antt =====
-- A new array in any space of the build (ManagedArray::allocate) keeps the invariant.
use chai.Base.{
  ◌≡◌, ◌≢◌, some, if◌then◌else◌, ◌⊎◌, ℕ, ◌<◌, true, sym, arith, subst, ◌∙◌, refl, inl, inr,
  Bool-cases,
}
use chai.Umpire.{Env, Pointer, RecordPointer, nullptr, ManagerLaws, MapLaws}
use chai.ManagedArray.Allocate.{allocate, own_record, first_memory, share}
use chai.ManagedArray.Allocate.Handle.{
  prepared, filled, base, new_array, sized_record, allocate-new_array,
}
use chai.ArrayManager.Consistent.Shared.{shared-Consistent}
use chai.ManagedArray.Handle.{Element, empty_array}
use chai.World.{World, UserCallback, null_record, PointerRecord, put_record, done}
use chai.Space.{ExecutionSpace, spaces, space_dec, has_gpu, um, update, pinned, cpu, gpu}
use chai.ArrayManager.Consistent.{IsConsistent}
use chai.Space.Facts.{Visited, none-not-Visited, cpu-Visited, um-build, pinned-build, gpu-Visited}
use chai.ArrayManager.Consistent.Placed.{made-Consistent}
use chai.ArrayManager.Consistent.Moves.{after_allocate-IsConsistent, allocate-after}
use chai.ArrayManager.Move.Effect.{held, update_self, after_allocate-heap}

module _ {E : Env} {Block : Type 0} {contents : E.Manager → Pointer → Block}
    {IsLive : E.Manager → Pointer → Type 0} (laws : ManagerLaws E Block contents IsLive)
    (map : MapLaws E) (T : Element) (w : World E) (elems : ℕ) (space : ExecutionSpace)
    (cback : UserCallback) (c : IsConsistent E IsLive w) (some_elems : 0 < elems)
    (visited : Visited space (spaces E.config)) where
  r : RecordPointer
  r = w.next_record

  own : w.next_record ≢ null_record
  own e = omega (arith, c.spare)

  abbrev before : World E
  before = prepared laws map T w elems space cback

  abbrev bare : PointerRecord
  bare = sized_record laws map T w elems space cback

  before-IsConsistent : IsConsistent E IsLive before
  before-IsConsistent = made-Consistent c before.heap bare (λ s. refl) (λ q. ground arith)

  spaced : space ≢ ExecutionSpace.none
  spaced e = none-not-Visited E.config (subst (λ s. Visited s (spaces E.config)) e visited)

  filled-IsConsistent : IsConsistent E IsLive (filled laws map T w elems space cback)
  filled-IsConsistent =
      after_allocate-IsConsistent laws map own space before bare before-IsConsistent (ground arith)
        visited refl

  abbrev own_block : PointerRecord
  own_block = held before w.next_record bare space

  abbrev block : Pointer
  block = base laws map T w elems space cback

  -- The record once the CPU, and the GPU of a build that has one, share the block.
  abbrev shared_block : PointerRecord
  shared_block = record own_block {
    last_space = space;
    pointers =
        if has_gpu E.config
        then update (update own_block.pointers cpu block) gpu block
        else update own_block.pointers cpu block;
  }

  abbrev shared_world : World E
  shared_world =
      put_record w.next_record (some shared_block) (filled laws map T w elems space cback)

  -- Memory that the CPU and the GPU share.
  abbrev IsShared : Type 0
  IsShared = ((E.config.um ≡ true) × (space ≡ um)) ⊎ ((E.config.pinned ≡ true) × (space ≡ pinned))

  allocate-shared :
      IsShared
      → allocate T empty_array elems space cback w
        ≡ done (new_array laws map T w elems space cback) shared_world
  unfolding allocate own_record first_memory share space_dec
  allocate-shared (inl (build, e)) = ground (
    arith,
    allocate-after laws map own space before bare before-IsConsistent (ground arith),
    after_allocate-heap before w.next_record bare space w.next_record,
  )
  allocate-shared (inr (build, e)) = ground (
    arith,
    allocate-after laws map own space before bare before-IsConsistent (ground arith),
    after_allocate-heap before w.next_record bare space w.next_record,
  )

  block_real : block ≢ nullptr
  block_real e =
      (laws.allocate_new (bare.allocators space) bare.size w.umpire).0
        (sym (update_self bare.pointers space _) ∙ e)

  added :
      (s : ExecutionSpace)
      → (shared_block.pointers s ≡ own_block.pointers s)
        ⊎ ((shared_block.pointers s ≡ block) × Visited s (spaces E.config))
  unfolding space_dec
  added s = elim (space_dec cpu s) [
    | yes e ↦ inr (ground arith, subst (λ t. Visited t (spaces E.config)) e (cpu-Visited E.config))
    | no n ↦ elim (Bool-cases (has_gpu E.config)) [
      | inr none_there ↦ inl (ground arith)
      | inl there ↦ elim (space_dec gpu s) [
        | yes e ↦
            inr (
              ground arith,
              subst (λ t. Visited t (spaces E.config)) e (gpu-Visited E.config there),
            )
        | no n' ↦ inl (ground arith)
      ]
    ]
  ]

  shared_world-IsConsistent : IsShared → IsConsistent E IsLive shared_world
  unfolding space_dec
  shared_world-IsConsistent h =
      shared-Consistent filled-IsConsistent shared_world.heap {r = w.next_record} own_block
        shared_block space
        (ground (arith, after_allocate-heap before w.next_record bare space w.next_record)) own
        block_real (λ s full. ground arith) added (λ q. ground arith)

  -- An array that is not empty can be made in every space of the build.
  pub allocate-IsConsistent :
      (w' : World E) × (allocate T empty_array elems space cback w
        ≡ done (new_array laws map T w elems space cback) w')
      × IsConsistent E IsLive w'
  allocate-IsConsistent = elim (space_dec space um) [
    | yes e ↦
        let h : IsShared =
          inl (um-build E.config (subst (λ s. Visited s (spaces E.config)) e visited), e) in
        (shared_world, allocate-shared h, shared_world-IsConsistent h)
    | no not_um ↦ elim (space_dec space pinned) [
      | yes e ↦
          let h : IsShared =
            inr (pinned-build E.config (subst (λ s. Visited s (spaces E.config)) e visited), e) in
          (shared_world, allocate-shared h, shared_world-IsConsistent h)
      | no not_pinned ↦ (
        filled laws map T w elems space cback,
        allocate-new_array laws map T w elems space cback some_elems spaced not_um not_pinned
            (record { unlocked = c.unlocked; map_live = c.live }) c.spare,
        filled-IsConsistent,
      )
    ]
  ]
