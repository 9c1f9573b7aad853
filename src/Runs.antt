-- ===== src/Runs.antt =====
-- Runs of calls on the ArrayManager and on the arrays that it manages: what a client may call, and the
-- worlds that a sequence of such calls reaches.
pub mod Arrays
pub mod Steps
pub mod Leaks
pub mod Reached
use chai.Base.{ℕ, ◌≡◌, ◌≢◌, ◌<◌, Bool, some, none, true}
use chai.Space.{ExecutionSpace, spaces, um, pinned}
use chai.Space.Facts.{Visited}
use chai.Umpire.{Env, Pointer, RecordPointer, nullptr}
use chai.World.{World, PointerRecord, UserCallback, Cmd, done, pure, null_record, ◌>>=◌}
use chai.ManagedArray.Handle.{Element, empty_array}
use chai.ManagedArray.Allocate
use chai.ArrayManager.Create.{make_managed, deep_copy_record, or_default}
use chai.ArrayManager.Move.{move_record}
use chai.ArrayManager.Touch.{register_touch, reset_touch}
use chai.ArrayManager.Reallocate.{reallocate}
use chai.ArrayManager.Free.{free_record}
use chai.ArrayManager.Register.{deregister_pointer}
use chai.ArrayManager.Query.{set_user_callback, get_size}
use chai.ArrayManager.Callbacks.{set_global_user_callback, enable_callbacks, disable_callbacks}
use chai.ArrayManager.Settings.{set_execution_space, sync_if_needed}
use chai.ArrayManager.Consistent.Dropped.{IsExclusive}

pub data Request : Type 0 where
  set_space : ExecutionSpace → Request
  sync : Request
  set_global_callback : UserCallback → Request
  enable disable : Request
  set_callback : Pointer → UserCallback → Request
  ask_size : Pointer → Request
  manage : Pointer → ℕ → ExecutionSpace → Bool → Request
  new_array : Element → ℕ → ExecutionSpace → UserCallback → Request
  deep_copy : RecordPointer → Request
  move_array touch : RecordPointer → ExecutionSpace → Request
  reset : RecordPointer → Request
  resize : (sizeof_t : ℕ) → Pointer → (elems : ℕ) → RecordPointer → Request
  free_array : RecordPointer → Request
  free_in : RecordPointer → ExecutionSpace → Request
  deregister : RecordPointer → Bool → Request

-- The build has the space.
abbrev pub InBuild : Env → ExecutionSpace → Type 0
InBuild E space = Visited space (spaces E.config)

-- A build with both UM and PINNED gives shared PINNED memory back for each of its spaces.
abbrev pub IsReleasable : Env → PointerRecord → Type 0
IsReleasable E p =
    E.config.um ≡ true
    → E.config.pinned ≡ true
    → p.pointers pinned ≢ nullptr
    → (s : ExecutionSpace) → p.pointers s ≡ p.pointers pinned
    → s ≡ pinned

module _ {E : Env} where
  unfoldable pub perform : Request → Cmd E (Unit {0})
  perform (set_space space) = set_execution_space space
  perform sync = do _ ← sync_if_needed; pure tt
  perform (set_global_callback f) = set_global_user_callback f
  perform enable = enable_callbacks
  perform disable = disable_callbacks
  perform (set_callback q f) = set_user_callback q f
  perform (ask_size q) = do _ ← get_size q; pure tt
  perform (manage q size space owned) = do _ ← make_managed q size space owned; pure tt
  perform (new_array T elems space cback) = do
    _ ← Allocate.allocate T empty_array elems space cback
    pure tt
  perform (deep_copy r) = do _ ← deep_copy_record r; pure tt
  perform (move_array r space) = move_record r space
  perform (touch r space) = register_touch r space
  perform (reset r) = reset_touch r
  perform (resize sizeof_t q elems r) = do _ ← reallocate sizeof_t q elems r; pure tt
  perform (free_array r) = free_record r ExecutionSpace.none
  perform (free_in r space) = free_record r space
  perform (deregister r from_umpire) = deregister_pointer r from_umpire

  -- A record of an array, which is not the null record.
  pub record IsArray (w : World E) (r : RecordPointer) : Type 0 where
    pub own : r ≢ null_record
    pub object : PointerRecord
    pub at : w.heap r ≡ some object

  -- What a client sees to: it uses live records and spaces of the build, hands over memory that the
  -- map does not know and that Umpire can register, asks for arrays that are not empty, makes a deep
  -- copy only of a record that has memory in its last space, does not reallocate memory that several
  -- spaces share, frees memory in one space only where the record owns it and no other space shares
  -- it, and does not free shared PINNED memory in a build with UM and PINNED. It calls no evict.
  abbrev pub Allowed : (E.Manager → Pointer → Type 0) → World E → Request → Type 0
  Allowed IsLive w (set_space space) = Unit
  Allowed IsLive w sync = Unit
  Allowed IsLive w (set_global_callback f) = Unit
  Allowed IsLive w enable = Unit
  Allowed IsLive w disable = Unit
  Allowed IsLive w (set_callback q f) = Unit
  Allowed IsLive w (ask_size q) = Unit
  Allowed IsLive w (manage q size space owned) =
      (q ≢ nullptr)
      × (0 < size)
      × (E.find q w.pointer_map ≡ none)
      × InBuild E (or_default space w)
      × IsLive (E.register_allocation q size (w.allocators (or_default space w)) w.umpire) q
  Allowed IsLive w (new_array T elems space cback) = (0 < elems) × InBuild E space
  Allowed IsLive w (deep_copy r) =
      (p : PointerRecord) × (w.heap r ≡ some p)
      × InBuild E p.last_space
      × (p.pointers p.last_space ≢ nullptr)
  Allowed IsLive w (move_array r space) = IsArray w r × InBuild E space
  Allowed IsLive w (touch r space) = IsArray w r
  Allowed IsLive w (reset r) = IsArray w r
  Allowed IsLive w (resize sizeof_t q elems r) = (a : IsArray w r) × IsExclusive a.object
  Allowed IsLive w (free_array r) = (a : IsArray w r) × IsReleasable E a.object
  Allowed IsLive w (free_in r space) =
      (a : IsArray w r) × InBuild E space × (a.object.owned space ≡ true) × IsExclusive a.object
  Allowed IsLive w (deregister r from_umpire) = IsArray w r

  -- The worlds that allowed requests reach from `start`.
  pub data Reaches (IsLive : E.Manager → Pointer → Type 0) (start : World E)
      : World E → Type 0 where
    here : Reaches IsLive start start
    next :
        {w w' : World E} (q : Request)
        → Reaches IsLive start w
        → Allowed IsLive w q
        → perform q w ≡ done tt w'
        → Reaches IsLive start w'
