-- ===== src/ArrayManager/Register/Abandoned.antt =====
-- ArrayManager::registerPointer for a pointer that the map holds for another record.
use chai.Umpire.{Env, Pointer, RecordPointer, nullptr}
use chai.Base.{◌≡◌, some, Bool, ◌≢◌, false, none, arith, true}
use chai.World.{World, PointerRecord, done, put_record, found_abandoned}
use chai.Space.{ExecutionSpace, fill, spaces}
use chai.ArrayManager.Register.{register_pointer, drop_abandoned, tell_manager}
use chai.ArrayManager.Query.{get_pointer_record}
use chai.ArrayManager.Register.Effect.{with_owner, told}
use chai.ArrayManager.Callbacks.Log.{callback_lem, notified}

module _ {E : Env}
    (keeps : (q : Pointer) (o r : RecordPointer) (m : E.Map)
      → E.find q m ≡ some o
      → E.find q (E.insert q r m) ≡ some o)
    (w : World E) (r found : RecordPointer) (p f : PointerRecord) (space : ExecutionSpace)
    (owned : Bool) where
  -- The found record is told of its end, and gone.
  abbrev dropped : World E
  dropped = put_record found none (
      put_record found (some (record f { pointers = fill (spaces E.config) nullptr f.pointers }))
        (notified (record w { locked = true }) found f found_abandoned space))

  abbrev taken_over : World E
  taken_over =
      told
        (put_record r (some (with_owner E p space owned)) (record dropped {
          pointer_map = E.insert (p.pointers space) r w.pointer_map;
          locked = false;
        }))
        r (with_owner E p space owned) space (p.pointers space)

  -- Registering a pointer that the map holds for another record deletes that record and succeeds, but
  -- where the map's insert keeps an entry that is there already, the map goes on naming the deleted
  -- record: `getPointerRecord` then yields a pointer that dangles, and not the record registered. The
  -- two records live on the heap, the mutex is free, and the found record is not null.
  pub register_pointer-abandoned :
      w.heap r ≡ some p
      → w.heap found ≡ some f
      → found ≢ r
      → found ≢ nullptr
      → w.locked ≡ false
      → E.find (p.pointers space) w.pointer_map ≡ some found
      → (w' : World E) × (register_pointer r space owned w ≡ done tt w')
        × (w'.heap found ≡ none)
        × (w'.heap r ≡ some (with_owner E p space owned))
        × (get_pointer_record (p.pointers space) w' ≡ done found w')
  unfolding register_pointer drop_abandoned tell_manager get_pointer_record
  register_pointer-abandoned at there other real unlocked named = (
    taken_over,
    ground
        (arith, callback_lem (record w { locked = true }) found f real there found_abandoned space),
    ground arith,
    ground arith,
    ground (arith, keeps (p.pointers space) found r w.pointer_map named),
  )
