-- ===== src/ArrayManager/Query/Leaks.antt =====
-- ArrayManager::reportLeaks.
use chai.Base.{
  ◌⊎◌, ap, subst, ◌∙◌, Option, ◌≡◌, ◌≢◌, List, some, arith, inl, inr, refl, true, ℕ_discrete,
  Occurs, sym,
}
use chai.Space.{ExecutionSpace, spaces}
use chai.Umpire.{Env, Pointer, RecordPointer, nullptr, ListingLaws}
use chai.ArrayManager.Consistent.{Holds, IsConsistent, real_of}
use chai.World.{for_each, with_lock-done, UserCallback, World, PointerRecord, Event, done, leaked}
use chai.ArrayManager.Callbacks.Log.{callback_lem}
use chai.ArrayManager.Query.{report_entry, report_leaks}
use chai.ArrayManager.Query.Adds.{
  Runs, Adds-owed, Adds, Notice, notify-Adds, for_each-Adds, no_Adds, logged,
}

-- The event says that a record on the heap still has memory in its space.
pub record IsLeak (heap : RecordPointer → Option PointerRecord) (e : Event) : Type 0 where
  pub object : PointerRecord
  pub at : heap e.pointer_record ≡ some object
  pub held : object.pointers e.space ≢ nullptr
  pub action : e.action ≡ leaked
  pub size : e.size ≡ object.size

module _ {E : Env} (w : World E) where
  -- What the callbacks in force say of the memory at `q` in the space.
  abbrev Owed : Pointer → RecordPointer → PointerRecord → ExecutionSpace → Event → Type 0
  Owed q r p s e =
      (p.pointers s ≡ q)
      × (w.callbacks_active ≡ true)
      × Notice r leaked s p.size p.user_callback w.user_callback e

  module _ {r : RecordPointer} {p : PointerRecord} (at : w.heap r ≡ some p) where
    Runs-IsLeak :
        (s : ExecutionSpace) (f : UserCallback) (e : Event)
        → p.pointers s ≢ nullptr
        → Runs r leaked s p.size f e
        → IsLeak w.heap e
    Runs-IsLeak s f e held (n, h, same) =
        subst (IsLeak w.heap) (sym same)
          (record { object = p; at = at; held = held; action = refl; size = refl })

    report_entry-Adds :
        (q : Pointer)
        → r ≢ nullptr
        → q ≢ nullptr
        → (es : List Event)
        → (es' : List Event) × (report_entry (q, r) (logged w es) ≡ done tt (logged w es'))
          × Adds
              (IsLeak w.heap)
              (λ e. (s : ExecutionSpace) × Occurs s (spaces E.config) × Owed q r p s e)
              es
              es'
    unfolding report_entry
    report_entry-Adds q real here es =
        for_each-Adds (λ s. Owed q r p s) _ w (spaces E.config)
          (λ s o es. elim (ℕ_discrete (p.pointers s) q) [
            | no other ↦ (es, ground arith, no_Adds (λ e (at_q, active, notice). other at_q))
            | yes at_q ↦ (
              _,
              ground (arith, callback_lem (logged w es) r p real at leaked s),
              Adds-owed (λ e (same, active, notice). (active, notice))
                  (notify-Adds r leaked s p.size w.callbacks_active p.user_callback w.user_callback
                    es
                    (λ e notice. elim notice [
                      | inl run ↦ Runs-IsLeak s p.user_callback e (λ z. here (sym at_q ∙ z)) run
                      | inr run ↦ Runs-IsLeak s w.user_callback e (λ z. here (sym at_q ∙ z)) run
                    ])),
            )
          ])
          es

  -- What is owed for an entry of the map.
  abbrev EntryOwed : Pointer × RecordPointer → Event → Type 0
  EntryOwed (q, r) e =
      (p : PointerRecord) × (w.heap r ≡ some p)
      × (s : ExecutionSpace) × Occurs s (spaces E.config)
      × Owed q r p s e

  -- The entries of a map that names live records.
  pub entries-Adds :
      (entries : List (Pointer × RecordPointer)) (es : List Event)
      → ((q : Pointer) (r : RecordPointer)
          → Occurs (q, r) entries
          → (r ≢ nullptr) × Holds w.heap q r)
      → (es' : List Event) × (for_each entries report_entry (logged w es) ≡ done tt (logged w es'))
        × Adds
            (IsLeak w.heap)
            (λ e. (x : Pointer × RecordPointer) × Occurs x entries × EntryOwed x e)
            es
            es'
  entries-Adds entries es known =
      for_each-Adds EntryOwed report_entry w entries
        (λ (q, r) o es.
          let (real, h) = known q r o in
          let (es', runs, adds) = report_entry-Adds h.at q real h.real es in
          (
            es',
            runs,
            Adds-owed
                (λ e (p, at, s, o, owed).
                  let same : p ≡ h.object = ground (arith, at, h.at) in
                  subst (λ p. (s : ExecutionSpace) × Occurs s (spaces E.config) × Owed q r p s e)
                    same (s, o, owed))
                adds,
          ))
        es

  -- A consistent world reports its leaks, all of them and no others.
  pub record LeakReport (es : List Event) : Type 0 where
    pub runs : report_leaks w ≡ done tt (logged w es)
    pub sound : (e : Event) → Occurs e es → Occurs e w.events ⊎ IsLeak w.heap e
    pub complete :
        (r : RecordPointer) (p : PointerRecord) (s : ExecutionSpace) (e : Event)
        → w.heap r ≡ some p
        → p.pointers s ≢ nullptr
        → w.callbacks_active ≡ true
        → Notice r leaked s p.size p.user_callback w.user_callback e
        → Occurs e es

pub report_leaks-LeakReport :
    {E : Env} {IsLive : E.Manager → Pointer → Type 0} (listing : ListingLaws E) (w : World E)
    → IsConsistent E IsLive w
    → (es : List Event) × LeakReport w es
unfolding report_leaks
report_leaks-LeakReport {E} listing w c =
    let (es, runs, adds) =
      entries-Adds (record w { locked = true }) (E.entries w.pointer_map) w.events
        (λ q r o.
          let h = c.known q r (listing.yielded q r w.pointer_map o) in (real_of c h.at, h)) in
    (
      es,
      record {
        runs =
            with_lock-done _ w c.unlocked runs
            ∙ ap (λ b. done tt (record w { events = es; locked = b })) (sym c.unlocked);
        sound = adds.sound;
        complete = λ r p s e at held active notice.
            let (entry, visited) = c.listed r p s at held in
            let mine : Owed w (p.pointers s) r p s e = (refl, active, notice) in
            let owed : EntryOwed w (p.pointers s, r) e = (p, at, s, visited, mine) in
            adds.owed e
              ((p.pointers s, r), listing.yields (p.pointers s) r w.pointer_map entry, owed);
      },
    )
