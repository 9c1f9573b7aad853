-- ===== src/ArrayManager/Consistent/Moves.antt =====
-- ArrayManager::allocate and ArrayManager::move keep the invariant, on every branch.
use chai.Base.{
  subst, ◌⊎◌, ◌≡◌, ◌≢◌, some, none, false, true, arith, ℕ_discrete, Bool-cases, inl, inr,
  if◌then◌else◌, ◌==◌, refl, ◌∙◌, Bool, not, ◌||◌,
}
use chai.Space.{Config, ExecutionSpace, spaces, space_dec, fill, um, pinned, cpu}
use chai.Space.Facts.{Visited, none-not-Visited}
use chai.Umpire.{Env, Pointer, RecordPointer, nullptr, MapLaws, ManagerLaws}
use chai.World.{PointerRecord, World, called, synchronized, null_record, done, captured, Run, pure}
use chai.ArrayManager.Consistent.{IsConsistent, world-IsConsistent, written-Consistent, real_of}
use chai.ArrayManager.Consistent.Placed.{placed-Consistent}
use chai.ArrayManager.Callbacks.{callback}
use chai.ArrayManager.Callbacks.Log.{notified, callback_lem}
use chai.ArrayManager.Settings.{sync_if_needed}
use chai.ArrayManager.Move.{allocate, ensure_allocated, finish_move, migrate, move_record}
use chai.ArrayManager.Move.Effect.{
  new_pointer, held, after_allocate, allocate_lem, after_allocate-heap, after_allocate-locked,
  after_allocate-next, after_allocate-map, after_finish, finish_move_lem,
}
use chai.ArrayManager.Move.Coherence.{
  IsMovable, after_allocate-Kept, after_allocate-live, new_pointer_fresh, move_record-migrate,
  move_record-same,
}

shared_or_IsMovable :
    (b : Config) (p : PointerRecord)
    → ((b.um ≡ true) × (p.last_space ≡ um))
      ⊎ (((b.pinned ≡ true) × (p.last_space ≡ pinned)) ⊎ IsMovable b p)
shared_or_IsMovable b p = elim (Bool-cases b.um) [
  | inl u ↦ elim (space_dec p.last_space um) [
    | yes e ↦ inl (u, e)
    | no ne ↦ inr (not_um b p (λ _. ne))
  ]
  | inr u ↦ inr (not_um b p (λ h. cc))
]
  where
    not_um :
        (b : Config) (p : PointerRecord)
        → (b.um ≡ true → p.last_space ≢ um)
        → ((b.pinned ≡ true) × (p.last_space ≡ pinned)) ⊎ IsMovable b p
    not_um b p h = elim (Bool-cases b.pinned) [
      | inl v ↦ elim (space_dec p.last_space pinned) [
        | yes e ↦ inl (v, e)
        | no ne ↦ inr (record { not_um = h; not_pinned = λ _. ne })
      ]
      | inr v ↦ inr (record { not_um = h; not_pinned = λ k. cc })
    ]

module _ {E : Env} {Block : Type 0} {contents : E.Manager → Pointer → Block}
    {IsLive : E.Manager → Pointer → Type 0} (laws : ManagerLaws E Block contents IsLive)
    (map : MapLaws E) {r : RecordPointer} (own : r ≢ null_record) (space : ExecutionSpace) where
  -- A command ends in a consistent world.
  abbrev pub EndsWell : Run E (Unit {0}) → Type 0
  EndsWell run = (w' : World E) × (run ≡ done tt w') × IsConsistent E IsLive w'

  module _ (w : World E) (p : PointerRecord) (c : IsConsistent E IsLive w)
      (at : w.heap r ≡ some p) where
    unknown : E.find (new_pointer w r p space) w.pointer_map ≡ none
    unknown =
        new_pointer_fresh laws w r p space (record { unlocked = c.unlocked; map_live = c.live })
          (real_of c at) at

    pub allocate-after : allocate r space w ≡ done tt (after_allocate w r p space)
    allocate-after = allocate_lem w r p space (real_of c at) at c.unlocked unknown

    pub after_allocate-IsConsistent :
        Visited space (spaces E.config)
        → p.pointers space ≡ nullptr
        → IsConsistent E IsLive (after_allocate w r p space)
    after_allocate-IsConsistent visited gone =
        world-IsConsistent (after_allocate w r p space) (after_allocate-next w r p space)
          (after_allocate-locked w r p space)
          (placed-Consistent c _ map p (held w r p space) space (new_pointer w r p space) at own
            visited gone (laws.allocate_new (p.allocators space) p.size w.umpire).0 unknown
            (λ s. refl) (after_allocate-heap w r p space) (after_allocate-map w r p space)
            (λ q o e. (after_allocate-Kept laws w r p space q (c.live q o e)).0)
            (after_allocate-live laws w r p space))

    reset : PointerRecord
    reset = record p { touched = fill (spaces E.config) false p.touched }

    finished : (dst src : Pointer) → IsConsistent E IsLive (after_finish w r p space dst src)
    unfolding after_finish reset
    finished dst src = elim (Bool-cases (dst == src)) [
      | inl same ↦
          rw same (written-Consistent c _ p reset at (λ s. refl) (λ q. ground arith) (λ q l. l))
      | inr other ↦ rw other (
          written-Consistent c _ p reset at (λ s. refl) (λ q. ground arith)
            (λ q l. laws.copy_live dst src q w.umpire l))
    ]

    finish_move-EndsWell :
        (dst src : Pointer)
        → dst ≢ nullptr
        → src ≢ nullptr
        → EndsWell (finish_move r space dst src w)
    finish_move-EndsWell dst src to from = (
      after_finish w r p space dst src,
      finish_move_lem w r p space dst src (real_of c at) own at to from,
      finished dst src,
    )

    -- The end of `migrate`, with its test.
    rest-EndsWell :
        (stop : Bool) (dst src : Pointer)
        → dst ≢ nullptr
        → (stop ≡ false → src ≢ nullptr)
        → EndsWell ((if stop then pure tt else finish_move r space dst src) w)
    rest-EndsWell true dst src to from = (w, refl, c)
    rest-EndsWell false dst src to from = finish_move-EndsWell dst src to (from refl)

  module _ (w : World E) (p : PointerRecord) (c : IsConsistent E IsLive w) (at : w.heap r ≡ some p)
      (visited : Visited space (spaces E.config)) where
    abbrev stops : Bool
    stops = not (p.touched p.last_space) || p.pointers p.last_space == nullptr

    going : stops ≡ false → p.pointers p.last_space ≢ nullptr
    going h e = ground arith

    migrate-EndsWell : EndsWell (migrate r space w)
    unfolding migrate ensure_allocated
    migrate-EndsWell = elim (ℕ_discrete (p.pointers space) nullptr) [
      | yes gone ↦
          let w' : World E = after_allocate w r p space in
          let (w'', runs, c'') =
            rest-EndsWell w' (held w r p space) (after_allocate-IsConsistent w p c at visited gone)
              (ground (arith, after_allocate-heap w r p space r)) stops (new_pointer w r p space)
              (p.pointers p.last_space) (laws.allocate_new (p.allocators space) p.size w.umpire).0
              going in
          (
            w'',
            ground (arith, allocate-after w p c at, after_allocate-heap w r p space r, runs),
            c'',
          )
      | no here ↦
          let (w'', runs, c'') =
            rest-EndsWell w p c at stops (p.pointers space) (p.pointers p.last_space) here going in
          (w'', ground (arith, runs), c'')
    ]

    spaced : space ≢ ExecutionSpace.none
    spaced e = none-not-Visited E.config (subst (λ s. Visited s (spaces E.config)) e visited)

    told : callback r captured space w ≡ done tt (notified w r p captured space)
    told = callback_lem w r p (real_of c at) at captured space

    -- The early return for PINNED, which waits for the device on the way to the host.
    pinned-EndsWell :
        E.config.pinned ≡ true
        → p.last_space ≡ pinned
        → space ≢ p.last_space
        → EndsWell (move_record r space w)
    unfolding move_record sync_if_needed
    pinned-EndsWell build last other = elim (space_dec space cpu) [
      | no device ↦ (notified w r p captured space, ground (arith, told, spaced), c)
      | yes host ↦ elim (Bool-cases w.synced_since_last_kernel) [
        | inl synced ↦ (notified w r p captured space, ground (arith, told, spaced), c)
        | inr unsynced ↦ (
          record (called synchronized w.umpire (notified w r p captured space)) {
            synced_since_last_kernel = true;
          },
          ground (arith, told, spaced),
          c,
        )
      ]
    ]

    um-EndsWell :
        E.config.um ≡ true
        → p.last_space ≡ um
        → space ≢ p.last_space
        → EndsWell (move_record r space w)
    unfolding move_record
    um-EndsWell build last other = (notified w r p captured space, ground (arith, told, spaced), c)

  -- A move into a space of the build, on every branch.
  pub move_record-EndsWell :
      (w : World E) (p : PointerRecord) (c : IsConsistent E IsLive w) (at : w.heap r ≡ some p)
      → Visited space (spaces E.config)
      → EndsWell (move_record r space w)
  move_record-EndsWell w p c at visited = elim (space_dec space p.last_space) [
    | yes same ↦ (
      notified w r p captured space,
      move_record-same w r p space (real_of c at) at (spaced w p c at visited) same,
      c,
    )
    | no other ↦ elim (shared_or_IsMovable E.config p) [
      | inl (build, last) ↦ um-EndsWell w p c at visited build last other
      | inr (inl (build, last)) ↦ pinned-EndsWell w p c at visited build last other
      | inr (inr movable) ↦
          let (w', runs, c') = migrate-EndsWell (notified w r p captured space) p c at visited in
          (
            w',
            move_record-migrate w r p space (real_of c at) at (spaced w p c at visited) other
                  movable
                ∙ runs,
            c',
          )
    ]
  ]
