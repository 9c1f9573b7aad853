-- ===== src/ArrayManager/Create.antt =====
-- ArrayManager::makeManaged and ArrayManager::deepCopyRecord.
pub mod Lookup
pub mod Copies
use chai.Base.{ℕ, ◌<◌, Bool, true, false, not, ite, if◌then◌else◌, ◌==◌, ◌&&◌, ltb, List, [], ◌∷◌}
use chai.Space.{ExecutionSpace, space_dec, update, spaces, fill}
use chai.Umpire.{Env, Pointer, RecordPointer, AllocatorId, nullptr}
use chai.World.{
  PointerRecord, ignore, found_abandoned, World, Cmd, done, ◌>>=◌, ◌>>◌, pure, get, put, when, bind,
  load, modify, new, register_memory, copy_memory, null_record,
}
use chai.ArrayManager.Callbacks.{callback}
use chai.ArrayManager.Register.{register_pointer}
use chai.ArrayManager.Move.{allocate}
use chai.ArrayManager.Query.{get_pointer_record}

-- `for (space : ss) to[space] = from[space]`
unfoldable pub copy_entries {ℓ} :
    {A : Type ℓ} → List ExecutionSpace → (from to : ExecutionSpace → A) → ExecutionSpace → A
copy_entries [] from to = to
copy_entries (s ∷ ss) from to = copy_entries ss from (update to s (from s))

module _ {E : Env} where
  -- `NONE` stands for the default space.
  abbrev pub or_default : ExecutionSpace → World E → ExecutionSpace
  or_default space w = ite (space_dec space ExecutionSpace.none) w.default_allocation_space space

  -- A new record for a pointer that the map does not know, and the map's record otherwise.
  unfoldable pub find_or_new : Pointer → ExecutionSpace → Cmd E RecordPointer
  unfolding new
  find_or_new pointer space = do
    r ← get_pointer_record pointer
    if r == null_record then new else do callback r found_abandoned space; pure r

  unfoldable pub make_managed : Pointer → ℕ → ExecutionSpace → Bool → Cmd E RecordPointer
  unfolding register_memory modify
  make_managed pointer size given owned = if pointer == nullptr then pure null_record else do
    w ← get
    let space = or_default given w
    register_memory pointer size (w.allocators space)
    r ← find_or_new pointer space
    w' ← get
    modify r (λ p. record p {
      pointers = update p.pointers space pointer;
      owned = update p.owned space owned;
      size = size;
      user_callback = ignore;
      allocators = copy_entries (spaces E.config) w'.allocators p.allocators;
    })
    when (not (pointer == nullptr) && ltb 0 size) (register_pointer r space owned)
    pure r

  unfoldable pub deep_copy_record : RecordPointer → Cmd E RecordPointer
  unfolding load new modify copy_memory
  deep_copy_record r = do
    c ← new
    p ← load r
    modify c (λ q. record q {
      size = p.size;
      user_callback = ignore;
      last_space = p.last_space;
      allocators = copy_entries (spaces E.config) p.allocators q.allocators;
    })
    allocate c p.last_space
    modify c (λ q. record q {
      owned = fill (spaces E.config) true q.owned;
      touched = update (fill (spaces E.config) false q.touched) p.last_space true;
    })
    q ← load c
    copy_memory (q.pointers p.last_space) (p.pointers p.last_space)
    pure c
