-- ===== src/ArrayManager/Reallocate/Announced.antt =====
-- The loop of ArrayManager::reallocate that announces the frees.
use chai.Base.{◌≡◌, ◌≢◌, some, List, [], ◌∷◌, ℕ_discrete, arith, refl}
use chai.Umpire.{Env, RecordPointer, nullptr}
use chai.World.{World, Event, free, for_each, PointerRecord, done}
use chai.ArrayManager.Reallocate.{announce_free}
use chai.Space.{ExecutionSpace}
use chai.ArrayManager.Callbacks.Log.{notified, callback_lem}

module _ {E : Env} {r : RecordPointer} where
  -- The loop that announces the frees runs callbacks, and no more.
  pub announced :
      (ss : List ExecutionSpace) (w : World E) {p : PointerRecord}
      → r ≢ nullptr
      → w.heap r ≡ some p
      → (es : List Event) × (for_each ss (announce_free r) w ≡ done tt (record w { events = es }))
  unfolding for_each announce_free
  announced [] w real at = (w.events, refl)
  announced (s ∷ ss) w {p} real at = elim (ℕ_discrete (p.pointers s) nullptr) [
    | yes gone ↦ let (es, runs) = announced ss w real at in (es, ground (arith, runs))
    | no here ↦
        let (es, runs) = announced ss (notified w r p free s) real at in
        (es, ground (arith, callback_lem w r p real at free s, runs))
  ]
