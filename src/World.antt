-- ===== src/World.antt =====
-- src/chai/PointerRecord.hpp, src/chai/Types.hpp, and the members of ArrayManager
-- (src/chai/ArrayManager.hpp): the state, and the commands on it.
use chai.Base.{
  ◌||◌, ℕ, ◌+◌, ◌≡◌, Bool, true, false, Option, none, some, List, [], ◌∷◌, ◌==◌, if◌then◌else◌,
  arith,
}
use chai.Space.{ExecutionSpace}
use chai.Umpire.{Env, Pointer, nullptr, RecordPointer, AllocatorId}

pub data Action : Type 0 where
  alloc free move captured found_abandoned leaked : Action

-- A `std::function`: empty, the lambda with the empty body, or one of the user's.
pub data UserCallback : Type 0 where
  empty ignore : UserCallback
  user : ℕ → UserCallback

pub record PointerRecord : Type 0 where
  pub size : ℕ
  pub pointers : ExecutionSpace → Pointer
  pub touched : ExecutionSpace → Bool
  pub last_space : ExecutionSpace
  pub owned : ExecutionSpace → Bool
  pub user_callback : UserCallback
  pub allocators : ExecutionSpace → AllocatorId

-- `PointerRecord()`.
abbrev pub new_record : PointerRecord
new_record = record {
  size = 0;
  pointers = λ _. nullptr;
  touched = λ _. false;
  last_space = ExecutionSpace.none;
  owned = λ _. true;
  user_callback = ignore;
  allocators = λ _. 0;
}

-- One run of a user's callback: whose record it is about, and the size that it reads there.
pub record Event : Type 0 where
  pub callee : ℕ
  pub pointer_record : RecordPointer
  pub action : Action
  pub space : ExecutionSpace
  pub size : ℕ

-- A call on the resource manager, or of the device's synchronize.
pub data Call : Type 0 where
  allocated : AllocatorId → ℕ → Pointer → Call
  deallocated : AllocatorId → Pointer → Call
  copied : (dst src : Pointer) → Call
  copied_bytes : (dst src : Pointer) → ℕ → Call
  resized : Pointer → ℕ → Call
  registered : Pointer → ℕ → AllocatorId → Call
  deregistered : Pointer → Call
  synchronized : Call

-- Undefined behaviour that the code can run into: a record pointer that is null or dangles, a mutex
-- locked by the thread that holds it, and an access or a copy at a null pointer.
pub data Fault : Type 0 where
  bad_record deadlock bad_access : Fault

-- `&ArrayManager::s_null_record`, an object that lives for the whole run.
abbrev pub null_record : RecordPointer
null_record = 1

-- The array manager, the objects on the heap, the resource manager's state, and two logs, newest
-- first. `heap` holds the records that `new` made and no `delete` has ended.
pub record World (E : Env) : Type 0 where
  pub heap : RecordPointer → Option PointerRecord
  pub next_record : RecordPointer
  pub current_execution_space : ExecutionSpace
  pub default_allocation_space : ExecutionSpace
  pub pointer_map : E.Map
  pub allocators : ExecutionSpace → AllocatorId
  pub locked : Bool
  pub user_callback : UserCallback
  pub callbacks_active : Bool
  pub device_synchronize : Bool
  pub synced_since_last_kernel : Bool
  pub umpire : E.Manager
  pub events : List Event
  pub calls : List Call

pub data Run (E : Env) (A : Type 0) : Type 0 where
  done : A → World E → Run E A
  fault : Fault → Run E A

abbrev pub Cmd : Env → Type 0 → Type 0
Cmd E A = World E → Run E A

module _ {E : Env} where
  abbrev pub bind : {A B : Type 0} → Run E A → (A → World E → Run E B) → Run E B
  bind (done a w) k = k a w
  bind (fault f) k = fault f

  infixl 5 ◌>>=◌ ◌>>◌
  abbrev pub ◌>>=◌ : {A B : Type 0} → Cmd E A → (A → Cmd E B) → Cmd E B
  ◌>>=◌ m f w = bind (m w) f

  abbrev pub ◌>>◌ : {B : Type 0} → Cmd E (Unit {0}) → Cmd E B → Cmd E B
  ◌>>◌ m k w = bind (m w) (λ _. k)

  abbrev pub pure : {A : Type 0} → A → Cmd E A
  pure a w = done a w

  abbrev pub get : Cmd E (World E)
  get w = done w w

  abbrev pub put : (World E → World E) → Cmd E (Unit {0})
  put f w = done tt (f w)

  abbrev pub when : Bool → Cmd E (Unit {0}) → Cmd E (Unit {0})
  when b m w = if b then m w else done tt w

  -- `for (x : xs) body(x)`
  unfoldable pub for_each : {A : Type 0} → List A → (A → Cmd E (Unit {0})) → Cmd E (Unit {0})
  for_each [] body w = done tt w
  for_each (x ∷ xs) body w = bind (body x w) (λ _. for_each xs body)

  -- `record->…`
  unfoldable pub load : RecordPointer → Cmd E PointerRecord
  load r w = elim (w.heap r) [ none ↦ fault bad_record | some p ↦ done p w ]

  abbrev pub put_record : RecordPointer → Option PointerRecord → World E → World E
  put_record r o w = record w { heap = λ q. if q == r then o else w.heap q }

  -- `record->x = …`
  unfoldable pub modify : RecordPointer → (PointerRecord → PointerRecord) → Cmd E (Unit {0})
  modify r f w = elim (w.heap r) [
    | none ↦ fault bad_record
    | some p ↦ done tt (put_record r (some (f p)) w)
  ]

  -- `new PointerRecord()`
  unfoldable pub new : Cmd E RecordPointer
  new w =
      done w.next_record
        (record (put_record w.next_record (some new_record) w) { next_record = w.next_record + 1 })

  -- `delete record`, for a record that is not null.
  unfoldable pub delete : RecordPointer → Cmd E (Unit {0})
  delete r w = elim (w.heap r) [ none ↦ fault bad_record | some p ↦ done tt (put_record r none w) ]

  unfoldable pub lock : Cmd E (Unit {0})
  lock w = if w.locked then fault deadlock else done tt (record w { locked = true })

  unfoldable pub unlock : Cmd E (Unit {0})
  unlock w = done tt (record w { locked = false })

  -- The rest of a scope under `std::lock_guard<std::mutex> lock(m_mutex)`.
  unfoldable pub with_lock : {A : Type 0} → Cmd E A → Cmd E A
  unfolding lock unlock
  with_lock m = do lock; a ← m; unlock; pure a

  abbrev pub called : Call → E.Manager → World E → World E
  called c u w = record w { umpire = u; calls = c ∷ w.calls }

  unfoldable pub allocate_memory : AllocatorId → ℕ → Cmd E Pointer
  allocate_memory a n w =
      let (p, u) = E.allocate a n w.umpire in done p (called (allocated a n p) u w)

  unfoldable pub deallocate_memory : AllocatorId → Pointer → Cmd E (Unit {0})
  deallocate_memory a p w = done tt (called (deallocated a p) (E.deallocate a p w.umpire) w)

  -- Umpire's copy throws where an address is null.
  unfoldable pub copy_memory : (dst src : Pointer) → Cmd E (Unit {0})
  copy_memory dst src w =
      if dst == nullptr || src == nullptr
      then fault bad_access
      else done tt (called (copied dst src) (E.copy dst src w.umpire) w)

  unfoldable pub copy_memory_bytes : (dst src : Pointer) → ℕ → Cmd E (Unit {0})
  copy_memory_bytes dst src n w =
      done tt (called (copied_bytes dst src n) (E.copy_bytes dst src n w.umpire) w)

  unfoldable pub resize_memory : Pointer → ℕ → Cmd E (Unit {0})
  resize_memory p n w = done tt (called (resized p n) (E.resize_allocation p n w.umpire) w)

  unfoldable pub register_memory : Pointer → ℕ → AllocatorId → Cmd E (Unit {0})
  register_memory p n a w =
      done tt (called (registered p n a) (E.register_allocation p n a w.umpire) w)

  unfoldable pub deregister_memory : Pointer → Cmd E (Unit {0})
  deregister_memory p w = done tt (called (deregistered p) (E.deregister_allocation p w.umpire) w)

  -- `chai::synchronize()`, which waits for the device.
  unfoldable pub synchronize : Cmd E (Unit {0})
  synchronize w = done tt (called synchronized w.umpire w)

  unfoldable pub map_insert : Pointer → RecordPointer → Cmd E (Unit {0})
  map_insert p r w = done tt (record w { pointer_map = E.insert p r w.pointer_map })

  unfoldable pub map_erase : Pointer → Cmd E (Unit {0})
  map_erase p w = done tt (record w { pointer_map = E.erase p w.pointer_map })

module _ {E : Env} {A : Type 0} (m : Cmd E A) (w : World E) (unlocked : w.locked ≡ false) where
  -- A scope under the lock fails as its body does, and ends with the mutex free.
  pub with_lock-fault :
      {f : Fault} → m (record w { locked = true }) ≡ fault f → with_lock m w ≡ fault f
  unfolding with_lock
  with_lock-fault h = ground arith

  pub with_lock-done :
      {a : A} {w' : World E}
      → m (record w { locked = true }) ≡ done a w'
      → with_lock m w ≡ done a (record w' { locked = false })
  unfolding with_lock
  with_lock-done h = ground arith
