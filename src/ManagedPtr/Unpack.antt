-- ===== src/ManagedPtr/Unpack.antt =====
-- src/chai/managed_ptr.hpp: the wrappers by which make_managed extracts the pointer of a ManagedArray or
-- of a managed_ptr that is an argument, and processArguments.
use chai.Base.{some, ◌∷◌, [], List, none}
use chai.ManagedPtr.Host.{◌>>=◌, ◌>>◌, pure, Cmd, Program, manager}
use chai.ManagedPtr.Handle.{ManagedPtr, copy, get_host}
use chai.Umpire.{Pointer}
use chai.ManagedArray.Handle.{Element, ManagedArray}
use chai.ManagedArray.Move
use chai.ManagedArray.Access
use chai.ArrayManager.Settings.{get_execution_space, set_execution_space}
use chai.Space.{cpu}
use chai.ManagedPtr.Make.{create}

pub record ManagedPtrUnpacker : Type 0 where
  pub managed_ptr : ManagedPtr

pub record ManagedArrayUnpacker : Type 0 where
  pub element : Element
  pub array : ManagedArray

-- An argument: a value of a type that is not of CHAI, or a handle to extract a pointer from.
pub data Argument (T : Type 0) : Type 0 where
  plain : T → Argument T
  unpacked_array : ManagedArrayUnpacker → Argument T
  unpacked : ManagedPtrUnpacker → Argument T

pub data RawArgument (T : Type 0) : Type 0 where
  value : T → RawArgument T
  pointer : Pointer → RawArgument T

-- `processArguments` in a kernel, where `get` does not move.
unfoldable pub process_on_device : {T : Type 0} → Argument T → RawArgument T
process_on_device (plain t) = value t
process_on_device (unpacked_array u) = pointer u.array.active_pointer
process_on_device (unpacked u) = pointer u.managed_ptr.gpu_pointer

module _ {P : Program} where
  -- `unpack(arg)`, which copies.
  unfoldable pub unpack : ManagedPtr → Cmd P ManagedPtrUnpacker
  unpack arg = do m ← copy arg; pure (record { managed_ptr = m })

  unfoldable pub get_unpacked : ManagedPtrUnpacker → Cmd P Pointer
  get_unpacked u = get_host u.managed_ptr

  unfoldable pub unpack_array : Element → ManagedArray → Cmd P ManagedArrayUnpacker
  unpack_array t arg = do m ← manager (Move.copy t arg); pure (record { element = t; array = m })

  -- `data()`, which leaves the wrapper's own array where it moved it.
  unfoldable pub data_unpacked : ManagedArrayUnpacker → Cmd P Pointer
  data_unpacked u = do (_, p) ← manager (Access.data_pointer u.element u.array); pure p

  unfoldable pub process_arguments : {T : Type 0} → Argument T → Cmd P (RawArgument T)
  process_arguments (plain t) = pure (value t)
  process_arguments (unpacked_array u) = do p ← data_unpacked u; pure (pointer p)
  process_arguments (unpacked u) = do p ← get_unpacked u; pure (pointer p)

  -- `processArguments(args)...` on the host: one of the orders that C++ allows.
  unfoldable pub process_all : {T : Type 0} → List (Argument T) → Cmd P (List (RawArgument T))
  process_all [] h = some ([], h)
  process_all (a ∷ rest) h = elim (process_arguments a h) [
    | none ↦ none
    | some (r, h') ↦ elim (process_all rest h') [
      | none ↦ none
      | some (rs, h'') ↦ some (r ∷ rs, h'')
    ]
  ]

  -- make_on_host with arguments: they are extracted while the execution space is CPU.
  unfoldable pub make_on_host_with : {T : Type 0} → List (Argument T) → Cmd P Pointer
  unfolding manager
  make_on_host_with args = do
    current ← manager get_execution_space
    manager (set_execution_space cpu)
    _ ← process_all args
    q ← create cpu
    manager (set_execution_space current)
    pure q
