-- ===== src/ArrayManager/Query.antt =====
-- The lookups of ArrayManager: getPointerRecord, getSize, setUserCallback, getPointerMap,
-- getTotalNumArrays, getTotalSize and reportLeaks.
pub mod Adds
pub mod Leaks
pub mod Totals
use chai.Base.{ℕ, ◌+◌, ◌%◌, size_mod, ◌==◌, Option, none, some, List, [], ◌∷◌, length}
use chai.Space.{spaces}
use chai.Umpire.{Env, Pointer, RecordPointer}
use chai.World.{
  UserCallback, leaked, done, Cmd, ◌>>=◌, pure, get, when, bind, load, modify, with_lock, for_each,
  null_record,
}
use chai.ArrayManager.Callbacks.{callback}

abbrev pub record_or_null : Option RecordPointer → RecordPointer
record_or_null none = null_record
record_or_null (some r) = r

module _ {E : Env} where
  unfoldable pub get_pointer_record : Pointer → Cmd E RecordPointer
  unfolding with_lock
  get_pointer_record pointer =
      with_lock (do w ← get; pure (record_or_null (E.find pointer w.pointer_map)))

  unfoldable pub get_size : Pointer → Cmd E ℕ
  unfolding load
  get_size pointer = do r ← get_pointer_record pointer; p ← load r; pure p.size

  unfoldable pub set_user_callback : Pointer → UserCallback → Cmd E (Unit {0})
  unfolding modify
  set_user_callback pointer f = do
    r ← get_pointer_record pointer
    modify r (λ p. record p { user_callback = f })

  unfoldable pub get_pointer_map : Cmd E (List (Pointer × RecordPointer))
  unfolding with_lock
  get_pointer_map = with_lock (do w ← get; pure (E.entries w.pointer_map))

  unfoldable pub get_total_num_arrays : Cmd E ℕ
  get_total_num_arrays = do w ← get; pure (length (E.entries w.pointer_map))

  unfoldable pub total_size_loop : List (Pointer × RecordPointer) → ℕ → Cmd E ℕ
  unfolding load
  total_size_loop [] total w = done total w
  total_size_loop ((_, r) ∷ es) total w =
      bind (load r w) (λ p. total_size_loop es ((total + p.size) % size_mod))

  unfoldable pub get_total_size : Cmd E ℕ
  unfolding with_lock
  get_total_size = with_lock (do w ← get; total_size_loop (E.entries w.pointer_map) 0)

  unfoldable pub report_entry : Pointer × RecordPointer → Cmd E (Unit {0})
  unfolding load
  report_entry (pointer, r) =
      for_each (spaces E.config)
        (λ s. do p ← load r; when (pointer == p.pointers s) (callback r leaked s))

  unfoldable pub report_leaks : Cmd E (Unit {0})
  unfolding with_lock
  report_leaks = with_lock (do w ← get; for_each (E.entries w.pointer_map) report_entry)
