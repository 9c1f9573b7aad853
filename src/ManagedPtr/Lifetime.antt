-- ===== src/ManagedPtr/Lifetime.antt =====
-- The life of a managed_ptr: what is done with it between make_managed and free.
pub mod Used
pub mod Freed
pub mod Quiet
pub mod Whole
use chai.Base.{ℕ, List, [], ◌∷◌, Bool, none, some, ite, if◌then◌else◌, ◌==◌, ◌+◌}
use chai.Space.{ExecutionSpace, space_dec}
use chai.ManagedPtr.Host.{Program, Cmd, PtrCallback, ◌>>=◌, pure, manager, Deed, destroyed}
use chai.ManagedPtr.Handle.{ManagedPtr, copy, get_host, get_in, set_callback}
use chai.Umpire.{Pointer}
use chai.ArrayManager.Settings.{set_execution_space}

-- A change of the execution space, and operations of a managed_ptr or of a copy of it.
pub data PtrUse : Type 0 where
  enter : ExecutionSpace → PtrUse
  copied read : PtrUse
  read_in : ExecutionSpace → Bool → PtrUse
  call_back : PtrCallback → PtrUse

module _ {P : Program} where
  unfoldable pub perform_use : ManagedPtr → PtrUse → Cmd P (Unit {0})
  unfolding manager
  perform_use m (enter space) = manager (set_execution_space space)
  perform_use m copied = do _ ← copy m; pure tt
  perform_use m read = do _ ← get_host m; pure tt
  perform_use m (read_in space do_move) = do _ ← get_in m space do_move; pure tt
  perform_use m (call_back c) = set_callback m c

  unfoldable pub perform_uses : ManagedPtr → List PtrUse → Cmd P (Unit {0})
  perform_uses m [] h = some (tt, h)
  perform_uses m (u ∷ us) h = elim (perform_use m u h) [
    | none ↦ none
    | some (_, h') ↦ perform_uses m us h'
  ]

-- The callback that the uses leave.
abbrev pub last_callback : PtrCallback → List PtrUse → PtrCallback
last_callback c [] = c
last_callback c (enter _ ∷ us) = last_callback c us
last_callback c (copied ∷ us) = last_callback c us
last_callback c (read ∷ us) = last_callback c us
last_callback c (read_in _ _ ∷ us) = last_callback c us
last_callback c (call_back d ∷ us) = last_callback d us

-- How often an object is destroyed in a space.
abbrev pub destructions : ExecutionSpace → Pointer → List Deed → ℕ
destructions s q [] = 0
destructions s q (destroyed t p ∷ ds) =
    ite (space_dec s t) (if p == q then 1 else 0) 0 + destructions s q ds
destructions s q (_ ∷ ds) = destructions s q ds
