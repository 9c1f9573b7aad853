-- ===== src/ManagedPtr/Host.antt =====
-- The state of managed_ptr: the array manager, the shared records, and a log of what is done to the
-- objects.
use chai.Base.{ℕ, Option, some, Bool, List, ◌∷◌, if◌then◌else◌, ◌+◌, ◌==◌, none}
use chai.World.{World, Action, Run, done, fault}
use chai.Space.{ExecutionSpace}
use chai.Umpire.{Env, Pointer}

-- The address of a `managed_ptr_record`; 0 is nullptr.
abbrev pub SharedPointer : Type 0
SharedPointer = ℕ

-- `std::function<bool(Action, ExecutionSpace, void*)>`: empty, or one of the user's.
pub data PtrCallback : Type 0 where
  unset : PtrCallback
  set : ℕ → PtrCallback

-- `struct managed_ptr_record`
pub record PtrRecord : Type 0 where
  pub last_space : ExecutionSpace
  pub callback : PtrCallback

-- Newest first in the log. A device object is destroyed by a kernel.
pub data Deed : Type 0 where
  told : ℕ → Action → ExecutionSpace → Pointer → Deed
  created destroyed : ExecutionSpace → Pointer → Deed
  waited : Deed

-- The build, whether it compiles for a device (CHAI_GPUCC), what the user's callbacks answer, and the
-- addresses that `new` returns on the host and on the device.
pub record Program : Type 1 where
  pub env : Env
  pub gpucc : Bool
  pub answer : ℕ → Action → ExecutionSpace → Pointer → Bool
  pub new_object : ExecutionSpace → ℕ → Pointer

pub record Host (P : Program) : Type 0 where
  pub manager : World P.env
  pub records : SharedPointer → Option PtrRecord
  pub next_record : SharedPointer
  pub objects : ℕ
  pub log : List Deed

-- `none` is undefined behaviour: a record that dangles, or a list that is too short.
abbrev pub Cmd : Program → Type 0 → Type 0
Cmd P A = Host P → Option (A × Host P)

module _ {P : Program} where
  infixl 5 ◌>>=◌ ◌>>◌
  abbrev pub ◌>>=◌ : {A B : Type 0} → Cmd P A → (A → Cmd P B) → Cmd P B
  ◌>>=◌ m f h = elim (m h) [ none ↦ none | some (a, h') ↦ f a h' ]

  abbrev pub ◌>>◌ : {B : Type 0} → Cmd P (Unit {0}) → Cmd P B → Cmd P B
  ◌>>◌ m k h = elim (m h) [ none ↦ none | some (_, h') ↦ k h' ]

  abbrev pub pure : {A : Type 0} → A → Cmd P A
  pure a h = some (a, h)

  abbrev pub get : Cmd P (Host P)
  get h = some (h, h)

  abbrev pub note : Deed → Cmd P (Unit {0})
  note d h = some (tt, record h { log = d ∷ h.log })

  abbrev pub when : Bool → Cmd P (Unit {0}) → Cmd P (Unit {0})
  when b m h = if b then m h else some (tt, h)

  -- `m_pointer_record->…`
  unfoldable pub load : SharedPointer → Cmd P PtrRecord
  load r h = elim (h.records r) [ none ↦ none | some p ↦ some (p, h) ]

  abbrev pub put_record : SharedPointer → Option PtrRecord → Host P → Host P
  put_record r o h = record h { records = λ q. if q == r then o else h.records q }

  unfoldable pub modify : SharedPointer → (PtrRecord → PtrRecord) → Cmd P (Unit {0})
  modify r f h = elim (h.records r) [
    | none ↦ none
    | some p ↦ some (tt, put_record r (some (f p)) h)
  ]

  -- `new managed_ptr_record(callback)`
  unfoldable pub new : PtrCallback → Cmd P SharedPointer
  new c h = some (
    h.next_record,
    record (put_record h.next_record
        (some (record { last_space = ExecutionSpace.none; callback = c })) h) {
          next_record = h.next_record + 1;
        },
  )

  unfoldable pub delete : SharedPointer → Cmd P (Unit {0})
  delete r h = elim (h.records r) [ none ↦ none | some p ↦ some (tt, put_record r none h) ]

  -- A command of the array manager.
  unfoldable pub manager : {A : Type 0} → (World P.env → Run P.env A) → Cmd P A
  manager m h = elim (m h.manager) [
    | done a w ↦ some (a, record h { manager = w })
    | fault f ↦ none
  ]
