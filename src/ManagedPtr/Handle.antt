-- ===== src/ManagedPtr/Handle.antt =====
-- The constructors, the assignments and the accessors of managed_ptr, and its move.
pub mod Told
use chai.Base.{ℕ, List, not, Bool, some, if◌then◌else◌, ◌==◌, ite, ◌∷◌, none, []}
use chai.ManagedPtr.Host.{
  unset, set, told, ◌>>=◌, ◌>>◌, pure, get, load, modify, Cmd, when, new, Program, SharedPointer,
  PtrCallback, set,
}
use chai.Umpire.{Pointer, nullptr}
use chai.Space.{ExecutionSpace, all_spaces, space_dec, cpu, gpu}
use chai.World.{move}

pub record ManagedPtr : Type 0 where
  pub cpu_pointer : Pointer
  pub gpu_pointer : Pointer
  pub pointer_record : SharedPointer

-- The default constructor and the one from nullptr.
abbrev pub null_ptr : ManagedPtr
null_ptr = record { cpu_pointer = nullptr; gpu_pointer = nullptr; pointer_record = nullptr }

-- `get(space, false)`
unfoldable pub pointer_in : Program → ManagedPtr → ExecutionSpace → Pointer
pointer_in P m cpu = m.cpu_pointer
pointer_in P m gpu = if P.gpucc then m.gpu_pointer else nullptr
pointer_in P m _ = nullptr

module _ {P : Program} where
  -- `for (space = NONE; …) m_callback(ACTION_MOVE, space, get(space, false))`
  unfoldable pub tell_move : ManagedPtr → ℕ → List ExecutionSpace → Cmd P (Unit {0})
  tell_move m n [] h = some (tt, h)
  tell_move m n (s ∷ ss) h =
      tell_move m n ss (record h { log = told n move s (pointer_in P m s) ∷ h.log })

  unfoldable pub tell_if_set : ManagedPtr → PtrCallback → Cmd P (Unit {0})
  tell_if_set m unset = pure tt
  tell_if_set m (set n) = tell_move m n (all_spaces P.env.config)

  unfoldable pub move_ptr : ManagedPtr → Cmd P (Unit {0})
  unfolding load modify
  move_ptr m = when (not (m.pointer_record == nullptr)) (do
    h ← get
    p ← load m.pointer_record
    let new_space = h.manager.current_execution_space
    ite (space_dec new_space ExecutionSpace.none) (pure tt) (
        ite (space_dec new_space p.last_space) (pure tt) (do
          modify m.pointer_record (λ q. record q { last_space = new_space })
          tell_if_set m p.callback)))

  -- The copy and converting constructors, `get()` and `get(space, move)`.
  unfoldable pub copy : ManagedPtr → Cmd P ManagedPtr
  copy other = do move_ptr other; pure other

  -- The copy assignment, whose test is of the two objects' addresses, and the converting one.
  unfoldable pub copy_assign : Bool → ManagedPtr → Cmd P ManagedPtr
  copy_assign is_this other = if is_this then pure other else copy other

  unfoldable pub convert_assign : ManagedPtr → Cmd P ManagedPtr
  convert_assign other = copy other

  unfoldable pub get_host : ManagedPtr → Cmd P Pointer
  get_host m = do move_ptr m; pure m.cpu_pointer

  unfoldable pub get_in : ManagedPtr → ExecutionSpace → Bool → Cmd P Pointer
  get_in m space do_move = do when do_move (move_ptr m); pure (pointer_in P m space)

  -- `for (space : spaces) switch (space) …`: a pointer of the list for each space.
  unfoldable pub assign : List ExecutionSpace → List Pointer → ManagedPtr → Cmd P ManagedPtr
  assign [] qs m h = some (m, h)
  assign (cpu ∷ ss) [] m h = none
  assign (cpu ∷ ss) (q ∷ qs) m h = assign ss qs (record m { cpu_pointer = q }) h
  assign (gpu ∷ ss) [] m h = if P.gpucc then none else assign ss [] m h
  assign (gpu ∷ ss) (q ∷ qs) m h =
      assign ss qs (if P.gpucc then record m { gpu_pointer = q } else m) h
  assign (_ ∷ ss) [] m h = assign ss [] m h
  assign (_ ∷ ss) (q ∷ qs) m h = assign ss qs m h

  -- `managed_ptr(spaces, pointers)` and `managed_ptr(spaces, pointers, callback)`
  unfoldable pub of_pointers : List ExecutionSpace → List Pointer → PtrCallback → Cmd P ManagedPtr
  unfolding new
  of_pointers ss qs c = do r ← new c; assign ss qs (record null_ptr { pointer_record = r })

  -- The aliasing constructor.
  unfoldable pub alias : ManagedPtr → List ExecutionSpace → List Pointer → Cmd P ManagedPtr
  alias other ss qs = do
    m ← assign ss qs (record null_ptr { pointer_record = other.pointer_record })
    move_ptr m
    pure m

  unfoldable pub set_callback : ManagedPtr → PtrCallback → Cmd P (Unit {0})
  unfolding modify
  set_callback m c =
      when (not (m.pointer_record == nullptr))
        (modify m.pointer_record (λ p. record p { callback = c }))

  -- The comparisons move both sides.
  unfoldable pub equal : ManagedPtr → ManagedPtr → Cmd P Bool
  equal a b = do p ← get_host a; q ← get_host b; pure (p == q)

  unfoldable pub is_null : ManagedPtr → Cmd P Bool
  is_null m = do p ← get_host m; pure (p == nullptr)

  -- `explicit operator bool()`
  unfoldable pub to_bool : ManagedPtr → Cmd P Bool
  to_bool m = do p ← get_host m; pure (not (p == nullptr))

-- `operator->()` and the address that `operator*()` reads, which move nothing.
unfoldable pub arrow : Bool → ManagedPtr → Pointer
arrow device_compile m = if device_compile then m.gpu_pointer else m.cpu_pointer

-- `swap(lhs, rhs)`
unfoldable pub swap : ManagedPtr × ManagedPtr → ManagedPtr × ManagedPtr
swap (lhs, rhs) = (rhs, lhs)
