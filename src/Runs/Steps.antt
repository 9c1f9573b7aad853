-- ===== src/Runs/Steps.antt =====
-- Each allowed request returns and keeps the invariant.
use chai.Runs.{
  set_global_callback, enable, disable, Request, perform, Allowed, IsArray, set_space, sync,
  set_callback, ask_size, manage, new_array, deep_copy, move_array, touch, reset, resize,
  free_array, free_in, deregister,
}
use chai.Base.{◌≡◌, some, Bool-cases, Option-cases, arith, inl, false, inr, refl, true}
use chai.Umpire.{Env, Pointer, RecordPointer, ManagerLaws, ReleaseLaws, MapLaws}
use chai.World.{
  World, Run, done, PointerRecord, UserCallback, put_record, null_record, called, synchronized,
}
use chai.ArrayManager.Consistent.{IsConsistent, written-Consistent, real_of}
use chai.ArrayManager.Callbacks.{set_global_user_callback, enable_callbacks, disable_callbacks}
use chai.ArrayManager.Settings.{set_execution_space, sync_if_needed}
use chai.ArrayManager.Query.{get_size, set_user_callback, get_pointer_record}
use chai.ArrayManager.Touch.{register_touch, reset_touch}
use chai.Space.{ExecutionSpace, space_dec, gpu, fill, spaces}
use chai.ArrayManager.Move.Coherence.{marked}
use chai.ArrayManager.Consistent.Moves.{move_record-EndsWell}
use chai.ArrayManager.Consistent.Makes.{make_managed-IsConsistent, deep_copy_record-IsConsistent}
use chai.ArrayManager.Consistent.Reallocated.{reallocate-Outcome}
use chai.ArrayManager.Consistent.Ends.{free_record-EndsWell, deregister_pointer-EndsWell}
use chai.Runs.Arrays.{allocate-IsConsistent}
use chai.ArrayManager.Consistent.Singles.{free_record_space-IsConsistent}

module _ {E : Env} {IsLive : E.Manager → Pointer → Type 0} (w : World E)
    (c : IsConsistent E IsLive w) where
  pub record Returns (run : Run E (Unit {0})) : Type 0 where
    pub world : World E
    pub runs : run ≡ done tt world
    pub consistent : IsConsistent E IsLive world

  -- A record that keeps its pointers is written.
  put-Returns :
      {run : Run E (Unit {0})} {r : RecordPointer} (p p' : PointerRecord)
      → w.heap r ≡ some p
      → ((s : ExecutionSpace) → p'.pointers s ≡ p.pointers s)
      → run ≡ done tt (put_record r (some p') w)
      → Returns run
  put-Returns {run} {r} p p' at same runs = record {
    world = put_record r (some p') w;
    runs = runs;
    consistent = written-Consistent c _ {r = r} p p' at same (λ q. ground arith) (λ q l. l);
  }

  set_space-Returns : (space : ExecutionSpace) → Returns (perform (set_space space) w)
  unfolding perform set_execution_space
  set_space-Returns space = elim (space_dec gpu space) [
    | yes e ↦ record {
      world = record w { synced_since_last_kernel = false; current_execution_space = space };
      runs = ground arith;
      consistent = c;
    }
    | no ne ↦ record {
      world = record w { current_execution_space = space };
      runs = ground arith;
      consistent = c;
    }
  ]

  global-Returns : (f : UserCallback) → Returns (perform (set_global_callback f) w)
  unfolding perform set_global_user_callback
  global-Returns f = record { world = record w { user_callback = f }; runs = refl; consistent = c }

  enable-Returns : Returns (perform enable w)
  unfolding perform enable_callbacks
  enable-Returns = record {
    world = record w { callbacks_active = true };
    runs = refl;
    consistent = c;
  }

  disable-Returns : Returns (perform disable w)
  unfolding perform disable_callbacks
  disable-Returns = record {
    world = record w { callbacks_active = false };
    runs = refl;
    consistent = c;
  }

  sync-Returns : Returns (perform sync w)
  unfolding perform sync_if_needed
  sync-Returns = elim (Bool-cases w.synced_since_last_kernel) [
    | inl e ↦ record { world = w; runs = ground arith; consistent = c }
    | inr e ↦ record {
      world = record (called synchronized w.umpire w) { synced_since_last_kernel = true };
      runs = ground arith;
      consistent = c;
    }
  ]

  -- The lookup finds an object.
  pub found :
      (q : Pointer)
      → (r : RecordPointer) × (p : PointerRecord) × (get_pointer_record q w ≡ done r w)
        × (w.heap r ≡ some p)
  unfolding get_pointer_record
  found q = elim (Option-cases (E.find q w.pointer_map)) [
    | inl e ↦ (null_record, c.empty, ground (arith, c.unlocked), c.empty_at)
    | inr (r, e) ↦ let h = c.known q r e in (r, h.object, ground (arith, c.unlocked), h.at)
  ]

  ask_size-Returns : (q : Pointer) → Returns (perform (ask_size q) w)
  unfolding perform get_size
  ask_size-Returns q =
      let (r, p, finds, at) = found q in
      record { world = w; runs = ground (arith, finds, at); consistent = c }

  set_callback-Returns : (q : Pointer) (f : UserCallback) → Returns (perform (set_callback q f) w)
  unfolding perform set_user_callback
  set_callback-Returns q f =
      let (r, p, finds, at) = found q in
      put-Returns p (record p { user_callback = f }) at (λ s. refl) (ground (arith, finds, at))

  touch-Returns :
      (r : RecordPointer) (space : ExecutionSpace)
      → IsArray w r
      → Returns (perform (touch r space) w)
  unfolding perform register_touch
  touch-Returns r space a = elim (space_dec space ExecutionSpace.none) [
    | yes e ↦ record { world = w; runs = ground arith; consistent = c }
    | no ne ↦
        put-Returns a.object (marked a.object space) a.at (λ s. refl)
          (ground (arith, a.at, a.own, real_of c a.at))
  ]

  reset-Returns : (r : RecordPointer) → IsArray w r → Returns (perform (reset r) w)
  unfolding perform reset_touch
  reset-Returns r a =
      put-Returns a.object
        (record a.object { touched = fill (spaces E.config) false a.object.touched }) a.at
        (λ s. refl) (ground (arith, a.at, a.own, real_of c a.at))

module _ {E : Env} {Block : Type 0} {contents : E.Manager → Pointer → Block}
    {IsLive : E.Manager → Pointer → Type 0} (laws : ManagerLaws E Block contents IsLive)
    (releases : ReleaseLaws E IsLive) (map : MapLaws E) (w : World E)
    (c : IsConsistent E IsLive w) where
  -- Every allowed request returns, and leaves a consistent world.
  pub perform-Returns : (q : Request) → Allowed IsLive w q → Returns w c (perform q w)
  unfolding perform
  perform-Returns (set_space space) a = set_space-Returns w c space
  perform-Returns sync a = sync-Returns w c
  perform-Returns (set_global_callback f) a = global-Returns w c f
  perform-Returns enable a = enable-Returns w c
  perform-Returns disable a = disable-Returns w c
  perform-Returns (set_callback q f) a = set_callback-Returns w c q f
  perform-Returns (ask_size q) a = ask_size-Returns w c q
  perform-Returns (manage q size space owned) (real, some_bytes, unknown, visited, registers) =
      let (w', runs, k) =
        make_managed-IsConsistent laws map w c q size space owned real some_bytes unknown visited
          registers in
      record { world = w'; runs = ground (arith, runs); consistent = k }
  perform-Returns (new_array T elems space cback) (some_elems, visited) =
      let (w', runs, k) =
        allocate-IsConsistent laws map T w elems space cback c some_elems visited in
      record { world = w'; runs = ground (arith, runs); consistent = k }
  perform-Returns (deep_copy r) (p, at, visited, full) =
      let (w', runs, k) = deep_copy_record-IsConsistent laws map w c r p at visited full in
      record { world = w'; runs = ground (arith, runs); consistent = k }
  perform-Returns (move_array r space) (a, visited) =
      let (w', runs, k) = move_record-EndsWell laws map a.own space w a.object c a.at visited in
      record { world = w'; runs = runs; consistent = k }
  perform-Returns (touch r space) a = touch-Returns w c r space a
  perform-Returns (reset r) a = reset-Returns w c r a
  perform-Returns (resize sizeof_t q elems r) (a, alone) =
      let (w', p', x, o) =
        reallocate-Outcome laws releases map a.own sizeof_t elems q w a.object c a.at alone in
      record { world = w'; runs = ground (arith, o.runs); consistent = o.consistent }
  perform-Returns (free_array r) (a, releasable) =
      let (w', runs, k) = free_record-EndsWell map releases a.own w a.object c a.at in
      record { world = w'; runs = runs; consistent = k }
  perform-Returns (free_in r space) (a, visited, own, alone) =
      let (w', runs, k) =
        free_record_space-IsConsistent map releases w a.object c a.at space visited alone own in
      record { world = w'; runs = runs; consistent = k }
  perform-Returns (deregister r from_umpire) a =
      let (w', runs, k) =
        deregister_pointer-EndsWell map releases a.own w a.object c a.at from_umpire in
      record { world = w'; runs = runs; consistent = k }
